-- ===== src/Socket/Stream.antt =====
-- The stream of library/socket.c: what has been taken by the kernel and what waits in the queue are
-- together the bytes that were handed over, in order.
use twopence.Prelude.{
  ℕ, ◌+◌, ◌-◌, ◌≤◌, ◌<◌, ◌≡◌, refl, sym, ap, ap₂, ◌∙◌, Option, none, some, List, [], ◌∷◌, ◌++◌,
  length, drop, slice, append_assoc, arith, ltb, ◌==◌, if◌then◌else◌, min, Bool-cases, inl, inr,
  take-append-drop, take-take,
}
use twopence.Buffer.{Buf, count, advance_head}
use twopence.Buffer.Bounds.{IsReadable, count_lem}
use twopence.Buffer.Refine.{slice-add}
use twopence.Buffer.Contents.{contents}
use twopence.Timeout.{Timeval}
use twopence.Queue.Order.{bytes_of}
use twopence.Socket.{Sock, took, answered, write, skip_sent, send_buffer}

-- All that the socket has accepted.
abbrev pub stream : Sock → List ℕ
stream sock = sock.wire ++ bytes_of sock.xmit_queue.packets

-- A write of a whole buffer takes some bytes from its front: none if it fails.
pub record Sent (sock : Sock) (bp : Buf) (r : Option ℕ × Sock × Buf) : Type 0 where
  pub readable : IsReadable r.2
  pub moved : r.1.wire ++ contents r.2 ≡ sock.wire ++ contents bp
  pub shorter : r.2.tail - r.2.head ≤ bp.tail - bp.head
  pub same_queue : r.1.xmit_queue ≡ sock.xmit_queue
  pub same_eof : r.1.write_eof ≡ sock.write_eof
  pub used : (n : ℕ) → r.0 ≡ some n → bp.head < bp.tail → length r.1.answers < length sock.answers

advance_head_lem :
    {bp : Buf} (n : ℕ)
    → IsReadable bp
    → n ≤ count bp
    → advance_head bp n ≡ some (record bp { head = bp.head + n })
unfolding advance_head count
advance_head_lem {bp} n v h = ground arith

skip_sent_lem :
    {bp : Buf} (n : ℕ)
    → IsReadable bp
    → n ≤ count bp
    → IsReadable (skip_sent bp (some n))
      × (slice bp.base bp.head n ++ contents (skip_sent bp (some n)) ≡ contents bp)
      × ((skip_sent bp (some n)).tail - (skip_sent bp (some n)).head ≤ bp.tail - bp.head)
skip_sent_lem {bp} n v h =
    let fits : bp.head + n ≤ bp.tail = omega (arith, count_lem v) in
    rw (advance_head_lem n v h, skip_sent)
      (
        record { ordered = fits; readable = v.readable; narrow = v.narrow },
        ap₂ ◌++◌ (sym (take-take n (bp.tail - bp.head) (drop bp.head bp.base) (omega arith)))
              (sym (slice-add bp.base bp.head n bp.tail fits))
            ∙ take-append-drop n (contents bp),
        omega arith,
      )

took_lem :
    (now : Timeval) (sock : Sock) (bp : Buf) (n : ℕ)
    → ((took now sock bp n).wire ≡ sock.wire ++ slice bp.base bp.head n)
      × ((took now sock bp n).xmit_queue ≡ sock.xmit_queue)
      × ((took now sock bp n).write_eof ≡ sock.write_eof)
      × ((took now sock bp n).answers ≡ sock.answers)
took_lem now sock bp n = elim (Bool-cases (n == 0)) [
  | inl e ↦ rw e (refl, refl, refl, refl)
  | inr e ↦ rw e (refl, refl, refl, refl)
]

abbrev with_rest : Buf → Option ℕ × Sock → Option ℕ × Sock × Buf
with_rest bp (n, sock) = (n, sock, skip_sent bp n)

answered_lem :
    (now : Timeval) (sock : Sock) {bp : Buf} (answers : List (Option ℕ))
    → IsReadable bp
    → sock.answers ≡ answers
    → Sent sock bp (with_rest bp (answered now sock bp (count bp) answers))
answered_lem now sock [] v e = record {
  readable = v;
  moved = refl;
  shorter = omega arith;
  same_queue = refl;
  same_eof = refl;
  used = λ n q h. absurd (cc q);
}
answered_lem now sock (none ∷ rest) v e = record {
  readable = v;
  moved = refl;
  shorter = omega arith;
  same_queue = refl;
  same_eof = refl;
  used = λ n q h. absurd (cc q);
}
answered_lem now sock {bp} (some n ∷ rest) v e =
    let k : min n (count bp) ≤ count bp = omega arith in
    let (w, q, f, a) = took_lem now (record sock { answers = rest }) bp (min n (count bp)) in
    let (ok, split, less) = skip_sent_lem (min n (count bp)) v k in
    record {
      readable = ok;
      moved =
          ap (λ l. l ++ contents (skip_sent bp (some (min n (count bp))))) w
          ∙ append_assoc sock.wire (slice bp.base bp.head (min n (count bp))) _
          ∙ ap (◌++◌ sock.wire) split;
      shorter = less;
      same_queue = q;
      same_eof = f;
      used = λ m r h. omega (arith, ap length a, ap length e);
    }

pub write_lem :
    (now : Timeval) (sock : Sock) {bp : Buf}
    → IsReadable bp
    → Sent sock bp (send_buffer now sock bp)
unfolding send_buffer write
write_lem now sock {bp} v = elim (Bool-cases (count bp == 0)) [
  | inl e ↦ rw e (record {
    readable = (skip_sent_lem 0 v (omega arith)).0;
    moved = ap (◌++◌ sock.wire) ((skip_sent_lem 0 v (omega arith)).1);
    shorter = (skip_sent_lem 0 v (omega arith)).2;
    same_queue = refl;
    same_eof = refl;
    used = λ n q h. absurd (ground (arith, count_lem v));
  })
  | inr e ↦ rw (e, same_len (count bp)) (answered_lem now sock sock.answers v refl)
]
  where
    same_len : (n : ℕ) → (if ltb n n then n else n) ≡ n
    same_len n = ground arith
