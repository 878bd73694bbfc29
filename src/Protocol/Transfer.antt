-- ===== src/Protocol/Transfer.antt =====
-- Inject and extract packets of library/protocol.c: built, received, and taken apart again.
use twopence.Prelude.{
  ℕ, ◌+◌, ◌^◌, ◌≤◌, ◌<◌, ◌≡◌, sym, ◌∙◌, some, List, [], ◌∷◌, ◌++◌, length, arith, length-append,
  append-nil,
}
use twopence.Buffer.{Buf}
use twopence.Buffer.Bounds.{IsReadable}
use twopence.Buffer.Contents.{contents}
use twopence.Buffer.Strings.{IsText}
use twopence.Protocol.{State, header_size, max_packet, be32, command_buffer_new, type_inject}
use twopence.Protocol.Build.{
  packet, Transfer, check, encode_string, encode_transfer, build_inject_packet,
}
use twopence.Protocol.Dissect.{decode_string, decode_u32, dissect_inject_packet}
use twopence.Protocol.Frame.{Dissected}
use twopence.Protocol.Encode.{Encodes, >>=-Encodes, encode_u32-Encodes, encode_string-Encodes}
use twopence.Protocol.Decode.{
  Decodes, >>=-Decodes, pure-Decodes, decode_u32-Decodes, decode_string-Decodes,
}
use twopence.Protocol.RoundTrip.{
  IsFresh, command_buffer_new-IsFresh, IsPacket, finish-IsPacket, read_header, IsNarrow, received,
  packet_unique,
}

-- The transfer of a file by a user.
abbrev pub transfer : List ℕ → List ℕ → ℕ → Transfer
transfer user name mode = record { user = some user; name = some name; mode = mode }

abbrev pub names_body : List ℕ → List ℕ → List ℕ
names_body user name = (user ++ 0 ∷ []) ++ (name ++ 0 ∷ [])

abbrev pub inject_body : List ℕ → List ℕ → ℕ → List ℕ
inject_body user name mode = (user ++ 0 ∷ []) ++ ((name ++ 0 ∷ []) ++ be32 mode)

encode_transfer-Encodes :
    (user name : List ℕ) (mode : ℕ)
    → header_size + (length user + 1) + (length name + 1) + 4 ≤ max_packet
    → Encodes
        (encode_transfer command_buffer_new (transfer user name mode))
        command_buffer_new
        (inject_body user name mode)
unfolding encode_transfer
encode_transfer-Encodes user name mode h =
    >>=-Encodes _ _ (user ++ 0 ∷ []) ((name ++ 0 ∷ []) ++ be32 mode)
      (encode_string-Encodes user f.valid (omega (arith, f.tail, f.size)))
      λ b1 w1.
        >>=-Encodes (check (encode_string b1 (some name))) _ (name ++ 0 ∷ []) (be32 mode)
          (encode_string-Encodes name w1.valid
            (omega (arith, f.tail, f.size, w1.tail, w1.size, length-append user (0 ∷ []))))
          λ b2 w2. encode_u32-Encodes mode w2.valid (
            omega (
              arith,
              f.tail,
              f.size,
              w1.tail,
              w1.size,
              w2.tail,
              w2.size,
              length-append user (0 ∷ []),
              length-append name (0 ∷ []),
            ))
  where
    f : IsFresh command_buffer_new
    f = command_buffer_new-IsFresh

-- An inject packet is built where header, strings and mode fit 32768 bytes: the header, then the
-- user, the file and the mode.
pub build_inject-IsPacket :
    (ps : State) (user name : List ℕ) (mode : ℕ)
    → header_size + (length user + 1) + (length name + 1) + 4 ≤ max_packet
    → (p : Buf) × (build_inject_packet ps (transfer user name mode) ≡ packet p)
      × IsPacket p ps type_inject (inject_body user name mode)
unfolding build_inject_packet
build_inject-IsPacket ps user name mode h =
    finish-IsPacket _ ps type_inject (inject_body user name mode)
      (encode_transfer-Encodes user name mode h)

-- What the receiver decodes of the payload.
inject_body-Decodes :
    {pl : Buf} (old : Transfer) (user name : List ℕ) (mode : ℕ)
    → IsReadable pl
    → IsText user
    → IsText name
    → mode < 2 ^ 32
    → contents pl ≡ inject_body user name mode
    → Decodes (dissect_inject_packet old pl) pl (transfer user name mode) []
unfolding dissect_inject_packet
inject_body-Decodes {pl} old user name mode v tu tn hm e =
    >>=-Decodes decode_string _ user _ ((name ++ 0 ∷ []) ++ be32 mode) []
      (decode_string-Decodes user ((name ++ 0 ∷ []) ++ be32 mode) v tu e)
      λ b1 l1.
        >>=-Decodes decode_string _ name _ (be32 mode) []
          (decode_string-Decodes name (be32 mode) l1.readable tn l1.bytes)
          λ b2 l2.
            >>=-Decodes decode_u32 _ mode _ [] []
              (decode_u32-Decodes mode [] l2.readable hm (l2.bytes ∙ sym (append-nil (be32 mode))))
              λ b3 l3. pure-Decodes (transfer user name mode) [] l3.readable l3.bytes

-- An inject packet goes through: where user and file name fit a packet and hold no NUL, a receive
-- buffer that begins with the built packet is taken apart into a header with the type, the ids and
-- the length of the packet, and a payload that decodes to the same user, file and mode with
-- nothing left; what stood behind the packet is left in the buffer.
pub inject_roundtrip :
    {p bp : Buf} (ps : State) (old : Transfer) (user name : List ℕ) (mode : ℕ) (rest : List ℕ)
    → header_size + (length user + 1) + (length name + 1) + 4 ≤ max_packet
    → IsText user
    → IsText name
    → mode < 2 ^ 32
    → IsNarrow ps
    → build_inject_packet ps (transfer user name mode) ≡ packet p
    → IsReadable bp
    → contents bp ≡ contents p ++ rest
    → (pl bp' pl' : Buf) × Dissected bp
        (read_header ps type_inject (inject_body user name mode))
        (inject_body user name mode)
        rest
        pl
        bp'
      × (dissect_inject_packet old pl ≡ some (transfer user name mode, pl'))
      × (contents pl' ≡ [])
inject_roundtrip {p} {bp} ps old user name mode rest h tu tn hm narrow built v e = go (
    received ps type_inject body rest
      (packet_unique _ ps type_inject body built (build_inject-IsPacket ps user name mode h)) narrow
      (omega (
        arith,
        length-append (user ++ 0 ∷ []) ((name ++ 0 ∷ []) ++ be32 mode),
        length-append user (0 ∷ []),
        length-append name (0 ∷ []),
        length-append (name ++ 0 ∷ []) (be32 mode),
      ))
      v e)
  where
    body : List ℕ
    body = inject_body user name mode

    Result : Type 0
    Result =
        (pl bp' pl' : Buf) × Dissected bp (read_header ps type_inject body) body rest pl bp'
        × (dissect_inject_packet old pl ≡ some (transfer user name mode, pl'))
        × (contents pl' ≡ [])

    go : (pl bp' : Buf) × Dissected bp (read_header ps type_inject body) body rest pl bp' → Result
    go (pl, bp', d) =
        let (pl', decoded, left) =
          inject_body-Decodes old user name mode d.payload_ok tu tn hm d.payload in
        (pl, bp', pl', d, decoded, left.bytes)
