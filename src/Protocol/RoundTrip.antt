-- ===== src/Protocol/RoundTrip.antt =====
-- Packets of library/protocol.c built, put into a receive buffer, and taken apart again.
use twopence.Prelude.{
  ℕ, ◌+◌, ◌≤◌, ◌<◌, ◌≡◌, refl, ap, ◌∙◌, subst, Option, some, List, [], ◌++◌, length, arith,
  append_assoc, length-replicate,
}
use twopence.Buffer.{Buf, new}
use twopence.Buffer.Bounds.{IsValid, IsReadable}
use twopence.Buffer.Contents.{contents}
use twopence.Protocol.{
  State, Header, header_size, max_packet, command_buffer_new, push_header_ps, raise_header,
}
use twopence.Protocol.Build.{Built, packet, finish}
use twopence.Protocol.Frame.{
  header_of, IsReserved, raise_header-contents, Dissected, dissect-packet,
}
use twopence.Protocol.Encode.{Encodes}

-- The buffer of a new command is empty, has the space of a header reserved, and 32768 bytes in all.
pub record IsFresh (bp : Buf) : Type 0 where
  pub valid : IsValid bp
  pub head : bp.head ≡ header_size
  pub tail : bp.tail ≡ header_size
  pub size : bp.size ≡ max_packet
  pub bytes : contents bp ≡ []

reserved-IsFresh :
    (n : ℕ) → n ≡ max_packet → IsFresh (record (new n) { head = header_size; tail = header_size })
unfolding new
reserved-IsFresh n e = record {
  valid = omega (arith, length-replicate n (let z : ℕ = 0 in z));
  head = refl;
  tail = refl;
  size = omega arith;
  bytes = refl;
}

pub command_buffer_new-IsFresh : IsFresh command_buffer_new
unfolding command_buffer_new
command_buffer_new-IsFresh = reserved-IsFresh max_packet refl

-- A packet of that type and state with that body.
pub record IsPacket (p : Buf) (ps : State) (type : ℕ) (body : List ℕ) : Type 0 where
  pub bytes : contents p ≡ header_of type ps.cid ps.xid body ++ body
  pub valid : IsValid p

-- A chain of encoders that succeeds on a command buffer makes a packet.
pub finish-IsPacket :
    (o : Option Buf) (ps : State) (type : ℕ) (d : List ℕ)
    → Encodes o command_buffer_new d
    → (p : Buf) × (finish o ps type ≡ packet p) × IsPacket p ps type d
unfolding finish push_header_ps
finish-IsPacket o ps type d (bp, e, w) = go (raise_header-contents bp type ps.cid ps.xid reserved)
  where
    f : IsFresh command_buffer_new
    f = command_buffer_new-IsFresh

    reserved : IsReserved bp
    reserved = record {
      valid = w.valid;
      reserved = w.head ∙ f.head;
      short = omega (arith, w.valid, w.size, f.size);
    }

    body : contents bp ≡ d
    body = w.bytes ∙ ap (λ l. l ++ d) f.bytes

    go :
        (p : Buf) × (raise_header bp type ps.cid ps.xid ≡ some p)
          × (contents p ≡ header_of type ps.cid ps.xid (contents bp) ++ contents bp)
          × IsValid p
          × (p.head ≡ 0)
          × (p.tail ≡ bp.tail)
        → (p : Buf) × (finish o ps type ≡ packet p) × IsPacket p ps type d
    go (p, made, bytes, valid, _, _) = (
      p,
      rw (e, finish) (rw (made, finish) refl),
      record { bytes = bytes ∙ ap (λ l. header_of type ps.cid ps.xid l ++ l) body; valid = valid },
    )

-- The header that a receiver reads of such a packet.
abbrev pub read_header : State → ℕ → List ℕ → Header
read_header ps type body = record {
  type = type;
  pad = 0;
  cid = ps.cid;
  xid = ps.xid;
  len = header_size + length body;
}

-- A state whose two numbers are 16 bits wide.
pub record IsNarrow (ps : State) : Type 0 where
  pub cid : ps.cid < 65536
  pub xid : ps.xid < 65536

-- A buffer that begins with a packet is taken apart into the packet's header and body.
pub received :
    {p bp : Buf} (ps : State) (type : ℕ) (body rest : List ℕ)
    → IsPacket p ps type body
    → IsNarrow ps
    → header_size + length body ≤ max_packet
    → IsReadable bp
    → contents bp ≡ contents p ++ rest
    → (pl bp' : Buf) × Dissected bp (read_header ps type body) body rest pl bp'
received {p} {bp} ps type body rest k n h v e =
    dissect-packet type ps.cid ps.xid body rest v n.cid n.xid (omega arith)
      (e ∙ ap (λ l. l ++ rest) k.bytes ∙ append_assoc (header_of type ps.cid ps.xid body) body rest)

-- Two packets that one builder returns are one.
pub packet_unique :
    {p : Buf} (b : Built) (ps : State) (type : ℕ) (body : List ℕ)
    → b ≡ packet p
    → (q : Buf) × (b ≡ packet q) × IsPacket q ps type body
    → IsPacket p ps type body
packet_unique {p} b ps type body e (q, e', k) =
    let same : q ≡ p = cc in subst (λ r. IsPacket r ps type body) same k
