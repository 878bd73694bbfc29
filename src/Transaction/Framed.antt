-- ===== src/Transaction/Framed.antt =====
-- The data packet that library/transaction.c makes of the bytes that it has read from a local source.
use twopence.Prelude.{
  ◌<◌, ℕ, ◌+◌, ◌-◌, ◌≤◌, ◌≡◌, refl, ap, ◌∙◌, some, List, [], ◌∷◌, ◌++◌, length, arith, blit,
  length-blit, take, drop,
}
use twopence.Buffer.{Buf, advance_tail, reserve_head}
use twopence.Buffer.Bounds.{IsValid}
use twopence.Buffer.Contents.{contents, slice-blit_end}
use twopence.Protocol.{State, be16, header_size, max_packet, type_chan_data}
use twopence.Protocol.Build.{packet}
use twopence.Protocol.Frame.{header_of}
use twopence.Protocol.RoundTrip.{IsFresh, command_buffer_new-IsFresh}
use twopence.Protocol.Data.{build_data_header-IsPacket}
use twopence.Transaction.Channels.{reserved}
use twopence.Transaction.Forward.{data_packet, forward_buffer}

-- The bytes of a data packet, and of several with the data of a list of pieces.
abbrev pub data_frame : State → ℕ → List ℕ → List ℕ
data_frame ps id d = header_of type_chan_data ps.cid ps.xid (be16 id ++ d) ++ (be16 id ++ d)

abbrev pub frames : State → ℕ → List (List ℕ) → List ℕ
frames ps id [] = []
frames ps id (d ∷ ds) = data_frame ps id d ++ frames ps id ds

abbrev pub flat : List (List ℕ) → List ℕ
flat [] = []
flat (d ∷ ds) = d ++ flat ds

-- Pieces that fit a packet each.
abbrev pub AllShort : List (List ℕ) → Type 0
AllShort [] = Unit {0}
AllShort (d ∷ ds) = (header_size + 2 + length d < 65536) × AllShort ds

-- An empty buffer with room for `n` bytes and the reserved room in front.
pub record IsRoomy (bp : Buf) : Type 0 where
  pub valid : IsValid bp
  pub head : bp.head ≡ header_size + 2
  pub tail : bp.tail ≡ header_size + 2
  pub size : bp.size ≡ max_packet

reserved-IsRoomy : {bp : Buf} → IsFresh bp → IsRoomy (reserved bp (header_size + 2))
unfolding reserve_head
reserved-IsRoomy {bp} f = ground arith

pub forward_buffer-IsRoomy : IsRoomy forward_buffer
unfolding forward_buffer
forward_buffer-IsRoomy = reserved-IsRoomy command_buffer_new-IsFresh

-- The buffer after a read of `d` into its room.
filled : Buf → List ℕ → Buf
filled bp d = record bp { base = blit bp.base bp.tail d; tail = bp.tail + length d }

advance-filled :
    {bp : Buf} (d : List ℕ)
    → IsRoomy bp
    → length d ≤ max_packet - (header_size + 2)
    → advance_tail (record bp { base = blit bp.base bp.tail d }) (length d) ≡ some (filled bp d)
unfolding advance_tail filled
advance-filled {bp} d r l = ground (arith, r.valid)

filled-contents :
    {bp : Buf} (d : List ℕ)
    → IsRoomy bp
    → length d ≤ max_packet - (header_size + 2)
    → contents (filled bp d) ≡ d
unfolding filled
filled-contents {bp} d r l =
    let e : bp.tail - bp.head ≡ 0 = omega arith in
    slice-blit_end bp.base bp.head bp.tail (bp.tail + length d - bp.head) d (omega arith)
      (omega (arith, r.valid)) refl
    ∙ ap (λ k. take k (drop bp.head bp.base) ++ d) e

pub data_packet-IsPacket :
    {bp : Buf} (d : List ℕ) (ps : State) (id : ℕ)
    → IsRoomy bp
    → length d ≤ max_packet - (header_size + 2)
    → (p : Buf) × (data_packet bp d ps id ≡ packet p)
      × (contents p ≡ data_frame ps id d)
      × IsValid p
      × (p.tail - p.head ≤ max_packet)
unfolding data_packet filled
data_packet-IsPacket {bp} d ps id r l =
    let v : IsValid (filled bp d) = omega (arith, r.valid, length-blit bp.base bp.tail d) in
    let (p, done, k, head, tail) =
      build_data_header-IsPacket (filled bp d) ps id v r.head (omega arith) in
    (
      p,
      rw (advance-filled d r l, data_packet) done,
      k.bytes ∙ ap (data_frame ps id) (filled-contents d r l),
      k.valid,
      omega (arith, head, tail),
    )
