-- ===== src/Protocol/Frame.antt =====
-- The header of library/protocol.c around a payload: what is put in front is what is taken off.
use twopence.Prelude.{
  ℕ, ◌+◌, ◌-◌, ◌*◌, ◌/◌, ◌%◌, ◌≤◌, ◌<◌, ◌≡◌, refl, ap, ◌∙◌, false, some, List, ◌++◌, length, take,
  drop, slice, arith, length-append, take-length-add, append-nil, length-blit, blit,
}
use twopence.Buffer.{Buf, head_mem, count, pull}
use twopence.Buffer.Bounds.{IsValid, IsReadable, IsValid-IsReadable}
use twopence.Buffer.Contents.{
  BeginsWith, contents-BeginsWith, contents, length-contents, slice-blit_start,
}
use twopence.Protocol.{Header, header_size, header_at, header_bytes, fill_header, raise_header}
use twopence.Protocol.Dissect.{dissect, dissect_from, dissect_payload}

-- A buffer in which the space of a header is reserved, and whose payload fits the length field.
pub record IsReserved (bp : Buf) : Type 0 where
  pub valid : IsValid bp
  pub reserved : bp.head ≡ header_size
  pub short : bp.tail < 65536

-- The header of a payload.
abbrev pub header_of : ℕ → ℕ → ℕ → List ℕ → List ℕ
header_of type cid xid body = header_bytes type cid xid (header_size + length body)

-- Pushing a header on a valid buffer in which its space is reserved passes both assertions: the
-- packet is the header, with the length of the whole, and then the payload.
pub raise_header-contents :
    (bp : Buf) (type cid xid : ℕ)
    → IsReserved bp
    → (p : Buf) × (raise_header bp type cid xid ≡ some p)
      × (contents p ≡ header_of type cid xid (contents bp) ++ contents bp)
      × IsValid p
      × (p.head ≡ 0)
      × (p.tail ≡ bp.tail)
unfolding raise_header fill_header count
raise_header-contents bp type cid xid r = (
  record bp { head = 0; base = blit bp.base 0 ds },
  ground (arith, r.reserved, r.valid),
  front,
  ground (arith, length-blit bp.base 0 ds, r.valid),
  refl,
  refl,
)
  where
    ds : List ℕ
    ds = header_bytes type cid xid bp.tail

    total : header_size + length (contents bp) ≡ bp.tail
    total = omega (arith, length-contents {bp = bp} (IsValid-IsReadable r.valid))

    front :
        slice (blit bp.base 0 ds) 0 (bp.tail - 0)
        ≡ header_of type cid xid (contents bp) ++ contents bp
    front =
        let e : bp.tail - 0 ≡ length ds + (bp.tail - bp.head) = omega arith in
        let sum : 0 + length ds ≡ bp.head = omega arith in
        rw total (
          ap (slice (blit bp.base 0 ds) 0) e
          ∙ slice-blit_start bp.base bp.head 0 (bp.tail - bp.head) ds sum (omega arith))

pub word16_lem : (w : ℕ) → w < 65536 → w / 256 % 256 * 256 + w % 256 ≡ w
word16_lem w h = omega arith

-- What a header is read back as.
header_at_lem :
    (type cid xid len : ℕ) (rest : List ℕ)
    → cid < 65536
    → xid < 65536
    → len < 65536
    → header_at (header_bytes type cid xid len ++ rest)
      ≡ record { type = type; pad = 0; cid = cid; xid = xid; len = len }
header_at_lem type cid xid len rest hc hx hl =
    ground (arith, word16_lem cid hc, word16_lem xid hx, word16_lem len hl)

-- What `dissect` returns of a packet.
pub record Dissected (bp : Buf) (hdr : Header) (body rest : List ℕ) (p bp' : Buf) : Type 0 where
  pub result : dissect bp ≡ (some (hdr, p), bp')
  pub payload : contents p ≡ body
  pub payload_ok : IsReadable p
  pub behind : contents bp' ≡ rest
  pub behind_ok : IsReadable bp'
  pub block : bp'.base ≡ bp.base
  pub memory : head_mem p ≡ body ++ head_mem bp'

pull_lem :
    {bp : Buf} (n : ℕ)
    → IsReadable bp
    → bp.head + n ≤ bp.tail
    → pull bp n ≡ (some (head_mem bp), record bp { head = bp.head + n })
unfolding pull
pull_lem {bp} n v h = ground arith

dissect_payload_lem :
    {bp : Buf} (hdr : Header) (n : ℕ)
    → IsReadable bp
    → hdr.len ≡ header_size + n
    → bp.head + n ≤ bp.tail
    → dissect_payload bp hdr ≡ (
      some (hdr, record { base = head_mem bp; head = 0; tail = n; size = 0; dynamic = false }),
      record bp { head = bp.head + n },
    )
unfolding dissect_payload
dissect_payload_lem {bp} hdr n v e h = ground arith

-- A readable buffer that begins with a header and its body is taken apart into that header and a
-- payload with that body, and the buffer then holds what stood behind the packet.
pub dissect-packet :
    {bp : Buf} (type cid xid : ℕ) (body rest : List ℕ)
    → IsReadable bp
    → cid < 65536
    → xid < 65536
    → header_size + length body < 65536
    → contents bp ≡ header_of type cid xid body ++ (body ++ rest)
    → (p bp' : Buf) × Dissected bp
        (record { type = type; pad = 0; cid = cid; xid = xid; len = header_size + length body })
        body
        rest
        p
        bp'
unfolding dissect
dissect-packet {bp} type cid xid body rest v hc hx hl e = (
  record { base = drop k bp.base; head = 0; tail = length body; size = 0; dynamic = false },
  record bp { head = k + length body },
  record {
    result =
        ap dissect_from (pull_lem header_size v (omega (arith, h.inside)))
        ∙ ap (dissect_payload (record bp { head = k })) read
        ∙ dissect_payload_lem
            (record { type = type; pad = 0; cid = cid; xid = xid; len = header_size + length body })
            (length body) v' refl w.inside;
    payload =
        let e : length body - 0 ≡ length body = omega arith in
        ap (λ n. take n (drop k bp.base)) e
        ∙ ap (take (length body)) w.memory
        ∙ take-length-add body _ (length body) 0 (omega arith)
        ∙ append-nil body;
    payload_ok =
        omega (arith, ap length w.memory, length-append body (drop (k + length body) bp.base));
    behind = w.behind;
    behind_ok = record { ordered = w.inside; readable = v.readable; narrow = v.narrow };
    block = refl;
    memory = w.memory;
  },
)
  where
    k : ℕ
    k = bp.head + header_size

    hdr : List ℕ
    hdr = header_of type cid xid body

    h : BeginsWith bp hdr (body ++ rest) k
    h = contents-BeginsWith hdr (body ++ rest) k v e refl

    v' : IsReadable (record bp { head = k })
    v' = record { ordered = h.inside; readable = v.readable; narrow = v.narrow }

    w : BeginsWith (record bp { head = k }) body rest (k + length body)
    w =
        contents-BeginsWith {bp = record bp { head = k }} body rest (k + length body) v' h.behind
          refl

    read :
        header_at (head_mem bp)
        ≡ record { type = type; pad = 0; cid = cid; xid = xid; len = header_size + length body }
    read = ap header_at h.memory ∙ header_at_lem type cid xid _ (drop k bp.base) hc hx hl
