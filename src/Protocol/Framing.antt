-- ===== src/Protocol/Framing.antt =====
-- How library/protocol.c finds the end of a packet in a stream of bytes: `buffer_need_to_recv` and
-- `buffer_complete`.
use twopence.Prelude.{
  ℕ, ◌+◌, ◌-◌, ◌≤◌, ◌<◌, ◌≡◌, sym, ap, ◌∙◌, Bool, true, false, Option, none, some, List, [], ◌++◌,
  length, drop, arith, ltb, if◌then◌else◌, length-append, get_or-append_lt,
}
use twopence.Buffer.{Buf, head_mem, pull}
use twopence.Buffer.Bounds.{IsReadable, count_lem}
use twopence.Buffer.Contents.{contents, length-contents}
use twopence.Buffer.Strings.{head_mem-split}
use twopence.Protocol.{header_size, word16, header_bytes}
use twopence.Protocol.Dissect.{dissect, need_to_recv, buffer_complete}
use twopence.Protocol.Frame.{header_of, word16_lem}

abbrev pub is_some {ℓ} : {A : Type ℓ} → Option A → Bool
is_some none = false
is_some (some a) = true

-- On a readable buffer, buffer_complete is exactly the condition under which dissect returns a
-- packet.
pub buffer_complete-dissect :
    {bp : Buf} → IsReadable bp → buffer_complete bp ≡ is_some (dissect bp).0
unfolding buffer_complete dissect pull
buffer_complete-dissect {bp} v = ground (arith, count_lem v)

-- The length field can be read in what is there of a packet, and with all that stands behind it.
word16-front :
    {bp : Buf} (missing : List ℕ)
    → IsReadable bp
    → header_size ≤ length (contents bp)
    → word16 (head_mem bp) 6 ≡ word16 (contents bp ++ missing) 6
word16-front {bp} missing v h = ground (
  arith,
  head_mem-split v,
  get_or-append_lt (contents bp) (drop (bp.tail - bp.head) (head_mem bp)) 6 0,
  get_or-append_lt (contents bp) (drop (bp.tail - bp.head) (head_mem bp)) 7 0,
  get_or-append_lt (contents bp) missing 6 0,
  get_or-append_lt (contents bp) missing 7 0,
)

total_lem :
    {bp : Buf} (type cid xid : ℕ) (body missing : List ℕ)
    → IsReadable bp
    → header_size + length body < 65536
    → contents bp ++ missing ≡ header_of type cid xid body ++ body
    → header_size ≤ length (contents bp)
    → word16 (head_mem bp) 6 ≡ header_size + length body
total_lem {bp} type cid xid body missing v hl e h =
    word16-front missing v h ∙ ap (λ l. word16 l 6) e ∙ word16_lem (header_size + length body) hl

-- While a packet is received, buffer_need_to_recv asks for the rest of the header, and once that
-- is there, for exactly the rest of the packet.
pub need_to_recv-partial :
    {bp : Buf} (type cid xid : ℕ) (body missing : List ℕ)
    → IsReadable bp
    → header_size + length body < 65536
    → contents bp ++ missing ≡ header_of type cid xid body ++ body
    → need_to_recv bp
      ≡ some (
          if ltb (length (contents bp)) header_size
          then header_size - length (contents bp)
          else length missing)
unfolding need_to_recv
need_to_recv-partial {bp} type cid xid body missing v hl e = ground (
  arith,
  count_lem v,
  length-contents v,
  total_lem type cid xid body missing v hl e,
  length-append (contents bp) missing,
  ap length e,
)

-- A header whose length field is less than its own eight bytes.
pub need_to_recv-stuck :
    {bp : Buf} (type cid xid len : ℕ) (rest : List ℕ)
    → IsReadable bp
    → len < header_size
    → contents bp ≡ header_bytes type cid xid len ++ rest
    → (need_to_recv bp ≡ none) × (buffer_complete bp ≡ false)
unfolding buffer_complete
need_to_recv-stuck {bp} type cid xid len rest v small e =
    ground (arith, count_lem v, sym (length-contents v) ∙ ap length e, field)
  where
    field : word16 (head_mem bp) 6 ≡ len
    field =
        word16-front [] v (omega (arith, ap length e))
        ∙ ap (λ l. word16 (l ++ []) 6) e
        ∙ word16_lem len (omega arith)
