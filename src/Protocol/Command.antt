-- ===== src/Protocol/Command.antt =====
-- Command packets of library/protocol.c: built, received, and taken apart again, with the environment.
use twopence.Prelude.{
  ℕ, suc, ◌+◌, ◌^◌, ◌≤◌, ◌<◌, ◌≡◌, refl, Bool, true, false, not, some, List, [], ◌∷◌, ◌++◌, length,
  arith, length-append, if◌then◌else◌, ◌==◌, ap₂,
}
use twopence.Buffer.{Buf, head_mem}
use twopence.Buffer.Bounds.{IsReadable}
use twopence.Buffer.Contents.{contents}
use twopence.Buffer.Strings.{IsText}
use twopence.Env.{Env}
use twopence.Protocol.{State, header_size, max_packet, be32, command_buffer_new, type_command}
use twopence.Protocol.Build.{
  packet, Command, check, encode_u32, encode_string, encode_command, build_command_packet,
}
use twopence.Protocol.Dissect.{decode_string, decode_u32, decode_command, dissect_command_packet}
use twopence.Protocol.Frame.{Dissected}
use twopence.Protocol.Encode.{
  Encodes, >>=-Encodes, encode_u32-Encodes, encode_string-Encodes, env_bytes, encode_env-Encodes,
}
use twopence.Protocol.Decode.{
  Decodes, >>=-Decodes, pure-Decodes, decode_u32-Decodes, decode_string-Decodes,
}
use twopence.Protocol.RoundTrip.{
  IsFresh, command_buffer_new-IsFresh, IsPacket, finish-IsPacket, read_header, IsNarrow, received,
  packet_unique,
}
use twopence.Protocol.Variables.{AllSendable, read_env-append, fuel_enough}

-- A command of a user, with both texts given.
abbrev pub command : List ℕ → List ℕ → ℕ → Bool → Env → Command
command user line timeout tty env = record {
  user = some user;
  command = some line;
  timeout = timeout;
  request_tty = tty;
  env = env;
}

abbrev pub flag : Bool → ℕ
flag tty = if tty then 1 else 0

-- The body in front of the environment, and all of it.
abbrev pub words_body : ℕ → Bool → List ℕ → List ℕ
words_body timeout tty rest = be32 timeout ++ (be32 (flag tty) ++ (be32 0 ++ (be32 0 ++ rest)))

abbrev pub command_body : List ℕ → List ℕ → ℕ → Bool → Env → List ℕ
command_body user line timeout tty env =
    (user ++ 0 ∷ []) ++ ((line ++ 0 ∷ []) ++ words_body timeout tty (env_bytes env))

encode_command-Encodes :
    (user line : List ℕ) (timeout : ℕ) (tty : Bool) (env : Env)
    → header_size + (length user + 1) + (length line + 1) + 16 + length (env_bytes env) ≤ max_packet
    → Encodes
        (encode_command command_buffer_new (command user line timeout tty env))
        command_buffer_new
        (command_body user line timeout tty env)
unfolding encode_command
encode_command-Encodes user line timeout tty env h =
    >>=-Encodes _ _ (user ++ 0 ∷ []) _
      (encode_string-Encodes user f.valid (omega (arith, f.tail, f.size)))
      λ b1 w1.
        let r1 : b1.tail + (length line + 1) + 16 + length (env_bytes env) ≤ b1.size =
          omega (arith, f.tail, f.size, w1.tail, w1.size, lu) in
        >>=-Encodes (check (encode_string b1 (some line))) _ (line ++ 0 ∷ []) _
          (encode_string-Encodes line w1.valid (omega arith))
          λ b2 w2.
            let r2 : b2.tail + 16 + length (env_bytes env) ≤ b2.size =
              omega (arith, w2.tail, w2.size, ll) in
            >>=-Encodes (check (encode_u32 b2 timeout)) _ (be32 timeout) _
              (encode_u32-Encodes timeout w2.valid (omega arith))
              λ b3 w3.
                let r3 : b3.tail + 12 + length (env_bytes env) ≤ b3.size =
                  omega (arith, w3.tail, w3.size) in
                >>=-Encodes (check (encode_u32 b3 (flag tty))) _ (be32 (flag tty)) _
                  (encode_u32-Encodes (flag tty) w3.valid (omega arith))
                  λ b4 w4.
                    let r4 : b4.tail + 8 + length (env_bytes env) ≤ b4.size =
                      omega (arith, w4.tail, w4.size) in
                    >>=-Encodes (check (encode_u32 b4 0)) _ (be32 0) _
                      (encode_u32-Encodes 0 w4.valid (omega arith))
                      λ b5 w5.
                        let r5 : b5.tail + 4 + length (env_bytes env) ≤ b5.size =
                          omega (arith, w5.tail, w5.size) in
                        >>=-Encodes (check (encode_u32 b5 0)) _ (be32 0) _
                          (encode_u32-Encodes 0 w5.valid (omega arith))
                          λ b6 w6.
                            encode_env-Encodes env b6 w6.valid (omega (arith, w6.tail, w6.size))
  where
    f : IsFresh command_buffer_new
    f = command_buffer_new-IsFresh

    lu : length (user ++ 0 ∷ []) ≡ length user + 1
    lu = length-append user (0 ∷ [])

    ll : length (line ++ 0 ∷ []) ≡ length line + 1
    ll = length-append line (0 ∷ [])

-- A command packet is built where header, strings, words and environment fit 32768 bytes: the
-- header, then the user, the line, four words and the variables.
pub build_command-IsPacket :
    (ps : State) (user line : List ℕ) (timeout : ℕ) (tty : Bool) (env : Env)
    → header_size + (length user + 1) + (length line + 1) + 16 + length (env_bytes env) ≤ max_packet
    → (p : Buf) × (build_command_packet ps (command user line timeout tty env) ≡ packet p)
      × IsPacket p ps type_command (command_body user line timeout tty env)
unfolding build_command_packet
build_command-IsPacket ps user line timeout tty env h =
    finish-IsPacket _ ps type_command (command_body user line timeout tty env)
      (encode_command-Encodes user line timeout tty env h)

flag-lt : (tty : Bool) → flag tty < 2 ^ 32
flag-lt true = omega arith
flag-lt false = omega arith

flag-not : (tty : Bool) → not (flag tty == 0) ≡ tty
flag-not true = refl
flag-not false = refl

decode_command-Decodes :
    {pl : Buf} (user line : List ℕ) (timeout : ℕ) (tty : Bool) (rest : List ℕ)
    → IsReadable pl
    → IsText user
    → IsText line
    → timeout < 2 ^ 32
    → contents pl ≡ (user ++ 0 ∷ []) ++ ((line ++ 0 ∷ []) ++ words_body timeout tty rest)
    → Decodes (decode_command pl) pl (user, line, timeout, flag tty) rest
unfolding decode_command
decode_command-Decodes {pl} user line timeout tty rest v tu tl ht e =
    >>=-Decodes decode_string _ user _ ((line ++ 0 ∷ []) ++ words_body timeout tty rest) rest
      (decode_string-Decodes user _ v tu e)
      λ b1 l1.
        >>=-Decodes decode_string _ line _ (words_body timeout tty rest) rest
          (decode_string-Decodes line _ l1.readable tl l1.bytes)
          λ b2 l2.
            >>=-Decodes decode_u32 _ timeout _ (be32 (flag tty) ++ (be32 0 ++ (be32 0 ++ rest)))
              rest (decode_u32-Decodes timeout _ l2.readable ht l2.bytes)
              λ b3 l3.
                >>=-Decodes decode_u32 _ (flag tty) _ (be32 0 ++ (be32 0 ++ rest)) rest
                  (decode_u32-Decodes (flag tty) _ l3.readable (flag-lt tty) l3.bytes)
                  λ b4 l4.
                    >>=-Decodes decode_u32 _ 0 _ (be32 0 ++ rest) rest
                      (decode_u32-Decodes 0 _ l4.readable (omega arith) l4.bytes)
                      λ b5 l5.
                        >>=-Decodes decode_u32 _ 0 _ rest rest
                          (decode_u32-Decodes 0 rest l5.readable (omega arith) l5.bytes)
                          λ b6 l6.
                            pure-Decodes (user, line, timeout, flag tty) rest l6.readable l6.bytes

-- What the receiver makes of the payload.
command_body-dissect :
    {pl : Buf} (old : Command) (user line : List ℕ) (timeout : ℕ) (tty : Bool) (env : Env)
    → IsReadable pl
    → IsText user
    → IsText line
    → timeout < 2 ^ 32
    → AllSendable env
    → contents pl ≡ command_body user line timeout tty env
    → dissect_command_packet old pl ≡ some (command user line timeout tty (old.env ++ env))
unfolding dissect_command_packet
command_body-dissect {pl} old user line timeout tty env v tu tl ht all e =
    go (decode_command-Decodes user line timeout tty (env_bytes env) v tu tl ht e)
  where
    go :
        Decodes (decode_command pl) pl (user, line, timeout, flag tty) (env_bytes env)
        → dissect_command_packet old pl ≡ some (command user line timeout tty (old.env ++ env))
    go (bp', read, left) =
        rw (read, dissect_command_packet)
          (ap₂ (λ t v. some (command user line timeout t v)) (flag-not tty)
            (read_env-append env old.env (suc (length (head_mem bp'))) bp' left.readable all
              (fuel_enough env left.readable left.bytes) left.bytes))

-- A command packet goes through: where user, command line and environment fit a packet, hold no
-- NUL and each entry is name=value of at most 1023 bytes, a receive buffer that begins with the
-- built packet is taken apart into a header with the type, the ids and the length of the packet,
-- and a payload that decodes to the same user, line, timeout and tty flag, with the variables
-- behind those that the receiver had.
pub command_roundtrip :
    {p bp : Buf} (ps : State) (old : Command) (user line : List ℕ) (timeout : ℕ) (tty : Bool)
    (env : Env) (rest : List ℕ)
    → header_size + (length user + 1) + (length line + 1) + 16 + length (env_bytes env) ≤ max_packet
    → IsText user
    → IsText line
    → timeout < 2 ^ 32
    → AllSendable env
    → IsNarrow ps
    → build_command_packet ps (command user line timeout tty env) ≡ packet p
    → IsReadable bp
    → contents bp ≡ contents p ++ rest
    → (pl bp' : Buf) × Dissected bp
        (read_header ps type_command (command_body user line timeout tty env))
        (command_body user line timeout tty env)
        rest
        pl
        bp'
      × (dissect_command_packet old pl ≡ some (command user line timeout tty (old.env ++ env)))
command_roundtrip {p} {bp} ps old user line timeout tty env rest h tu tl ht all narrow built v e =
    let body : List ℕ = command_body user line timeout tty env in
    let k : IsPacket p ps type_command body =
      packet_unique _ ps type_command body built
        (build_command-IsPacket ps user line timeout tty env h) in
    let fits : header_size + length body ≤ max_packet = omega (
      arith,
      length-append (user ++ 0 ∷ []) ((line ++ 0 ∷ []) ++ words_body timeout tty (env_bytes env)),
      length-append user (0 ∷ []),
      length-append line (0 ∷ []),
      length-append (line ++ 0 ∷ []) (words_body timeout tty (env_bytes env)),
    ) in
    let (pl, bp', d) = received ps type_command body rest k narrow fits v e in
    (
      pl,
      bp',
      d,
      command_body-dissect old user line timeout tty env d.payload_ok tu tl ht all d.payload,
    )
