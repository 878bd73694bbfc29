-- ===== src/Protocol/Data.antt =====
-- Data packets of library/protocol.c: the number of the channel and a header are put in front of bytes
-- for which the room has been reserved.
use twopence.Prelude.{
  ℕ, ◌+◌, ◌-◌, ◌<◌, ◌≡◌, refl, ap, ◌∙◌, true, ◌++◌, length, blit, length-blit, slice, arith,
  sub_u32, ◌==◌,
}
use twopence.Buffer.{Buf}
use twopence.Buffer.Bounds.{IsValid}
use twopence.Buffer.Contents.{contents, slice-blit_start}
use twopence.Protocol.{State, be16, header_size, type_chan_data, push_header_ps}
use twopence.Protocol.Build.{packet, build_data_header, made}
use twopence.Protocol.Frame.{IsReserved, header_of, raise_header-contents}
use twopence.Protocol.RoundTrip.{IsPacket}

-- The number of the channel, written in front of the bytes.
numbered : (bp : Buf) (channel : ℕ) → Buf
numbered bp channel = record bp { head = 8; base = blit bp.base 8 (be16 channel) }

numbered-contents :
    (bp : Buf) (channel : ℕ)
    → IsValid bp
    → bp.head ≡ header_size + 2
    → contents (numbered bp channel) ≡ be16 channel ++ contents bp
unfolding numbered
numbered-contents bp channel v h =
    let n : bp.tail - 8 ≡ length (be16 channel) + (bp.tail - bp.head) = omega arith in
    ap (slice (blit bp.base 8 (be16 channel)) 8) n
    ∙ slice-blit_start bp.base bp.head 8 (bp.tail - bp.head) (be16 channel) (omega arith)
        (omega arith)

numbered-IsReserved :
    (bp : Buf) (channel : ℕ)
    → IsValid bp
    → bp.head ≡ header_size + 2
    → bp.tail < 65536
    → IsReserved (numbered bp channel)
unfolding numbered
numbered-IsReserved bp channel v h small = record {
  valid = omega (arith, length-blit bp.base 8 (be16 channel));
  reserved = refl;
  short = small;
}

-- A buffer whose head is behind the room of a header and of a number becomes a data packet.
pub build_data_header-IsPacket :
    (bp : Buf) (ps : State) (channel : ℕ)
    → IsValid bp
    → bp.head ≡ header_size + 2
    → bp.tail < 65536
    → (p : Buf) × (build_data_header bp ps channel ≡ packet p)
      × IsPacket p ps type_chan_data (be16 channel ++ contents bp)
      × (p.head ≡ 0)
      × (p.tail ≡ bp.tail)
unfolding build_data_header push_header_ps numbered
build_data_header-IsPacket bp ps channel v h small =
    let e : sub_u32 bp.head 2 ≡ 8 = omega arith in
    let t : (bp.head == header_size + 2) ≡ true = ground arith in
    let (p, done, bytes, valid, head, tail) =
      raise_header-contents (numbered bp channel) type_chan_data ps.cid ps.xid
        (numbered-IsReserved bp channel v h small) in
    let eq = numbered-contents bp channel v h in
    (
      p,
      rw t (rw e (ap made done)),
      record {
        bytes = bytes ∙ ap (λ c. header_of type_chan_data ps.cid ps.xid c ++ c) eq;
        valid = valid;
      },
      head,
      tail,
    )
