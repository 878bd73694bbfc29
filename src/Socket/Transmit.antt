-- ===== src/Socket/Transmit.antt =====
-- `twopence_sock_queue_xmit`, `twopence_sock_xmit_shared` and `twopence_sock_xmit` of library/socket.c: the
-- bytes of a buffer go to the end of the stream.
use twopence.Prelude.{
  ℕ, ◌+◌, ◌-◌, ◌<◌, ◌≡◌, ◌≢◌, refl, sym, ap, ◌∙◌, subst, Bool, true, false, not, Option, some, List,
  [], ◌∷◌, ◌++◌, append_assoc, append-nil, arith, ◌==◌, if◌then◌else◌, Bool-cases, inl, inr,
  u32_mod, ==→eq, ==→ne, length, ◌≤◌,
}
use twopence.Buffer.{Buf, count, clone}
use twopence.Buffer.Bounds.{IsReadable, IsValid-IsReadable, count_lem}
use twopence.Buffer.Contents.{contents, length-contents}
use twopence.Buffer.Clone.{clone-contents}
use twopence.Timeout.{Timeval}
use twopence.Queue.{Packet, Queue, queue_empty}
use twopence.Queue.Order.{bytes_of, IsOrdered, append-IsOrdered, append-bytes}
use twopence.Socket.{Sock, send_buffer, enqueue, queue_xmit}
use twopence.Socket.Stream.{stream, Sent, write_lem}
use twopence.Socket.Flush.{empty_contents}

-- The buffer has been accepted: what there was of it is the end of the stream.
pub record Accepted (sock : Sock) (d : List ℕ) (sock' : Sock) : Type 0 where
  pub ordered : IsOrdered sock'.xmit_queue
  pub at_end : stream sock' ≡ stream sock ++ d
  pub same_eof : sock'.write_eof ≡ sock.write_eof
  pub grown : sock'.xmit_queue.bytes ≤ sock.xmit_queue.bytes + length d

-- What is queued for a buffer: the buffer, or a clone of it.
queued_lem :
    (clonebuf : Bool) {bp : Buf}
    → IsReadable bp
    → count bp ≢ 0
    → let b = if clonebuf then clone bp else bp in
      IsReadable b
      × (b.head < b.tail)
      × (b.tail - b.head ≡ bp.tail - bp.head)
      × (contents b ≡ contents bp)
queued_lem true {bp} v h =
    let (same, valid, head, tail) = clone-contents v in
    (
      IsValid-IsReadable valid,
      omega (arith, head, tail, h, count_lem v),
      omega (arith, head, tail, count_lem v),
      same,
    )
queued_lem false {bp} v h = (v, omega (arith, h, count_lem v), refl, refl)

enqueue_lem :
    (clonebuf : Bool) (n : ℕ) (sock : Sock) {bp : Buf}
    → IsOrdered sock.xmit_queue
    → IsReadable bp
    → sock.xmit_queue.bytes + (bp.tail - bp.head) < u32_mod
    → ((enqueue clonebuf n sock bp).0 ≡ some n)
      × Accepted sock (contents bp) (enqueue clonebuf n sock bp).1
unfolding enqueue
enqueue_lem clonebuf n sock {bp} o v small = elim (Bool-cases (count bp == 0)) [
  | inl e ↦ rw e (
    refl,
    record {
      ordered = o;
      at_end =
          sym (append-nil (stream sock))
          ∙ ap (◌++◌ (stream sock)) (sym (empty_contents v (==→eq (count bp) 0 e)));
      same_eof = refl;
      grown = omega (arith, length-contents v);
    },
  )
  | inr e ↦
      let b : Buf = if clonebuf then clone bp else bp in
      let (vb, hb, eb, cb) = queued_lem clonebuf v (==→ne (count bp) 0 e) in
      let (o', s) = append-IsOrdered b o vb hb (omega (arith, eb)) in
      rw e (
        refl,
        record {
          ordered = o';
          at_end =
              ap (◌++◌ sock.wire) (s ∙ ap (◌++◌ (bytes_of sock.xmit_queue.packets)) cb)
              ∙ sym (append_assoc sock.wire (bytes_of sock.xmit_queue.packets) (contents bp));
          same_eof = refl;
          grown = omega (arith, length-contents v, append-bytes sock.xmit_queue b vb, eb);
        },
      )
]

queue_empty→nil : (q : Queue) → queue_empty q ≡ true → q.packets ≡ []
unfolding queue_empty
queue_empty→nil q h = go q.packets h
  where
    go :
        (ps : List Packet)
        → (elim ps as (λ x. Bool) [ [] ↦ true | p ∷ ps' ↦ false ]) ≡ true
        → ps ≡ []
    go [] e = refl
    go (p ∷ ps) e = absurd (cc e)

-- After a write of its front, the rest of the buffer goes to the end of an empty queue.
after_write :
    {sock sock' : Sock} {bp bp' : Buf} {n : Option ℕ}
    → Sent sock bp (n, sock', bp')
    → sock.xmit_queue.packets ≡ []
    → stream sock' ++ contents bp' ≡ stream sock ++ contents bp
after_write {sock} {sock'} {bp} {bp'} s e =
    ap (λ ps. (sock'.wire ++ bytes_of ps) ++ contents bp') (ap (λ q. q.packets) s.same_queue ∙ e)
    ∙ ap (λ l. l ++ contents bp') (append-nil sock'.wire)
    ∙ s.moved
    ∙ sym (ap (λ l. l ++ contents bp) (append-nil sock.wire))
    ∙ ap (λ ps. (sock.wire ++ bytes_of ps) ++ contents bp) (sym e)

-- On an open socket with an ordered queue and a count of queued bytes that does not wrap,
-- queue_xmit and xmit_shared keep the queue ordered and put the bytes of the buffer at the end of
-- the stream of the bytes taken by the kernel and the bytes queued, whatever the kernel takes of
-- them.
pub queue_xmit-Accepted :
    (clonebuf : Bool) (now : Timeval) (sock : Sock) (bp : Buf)
    → IsOrdered sock.xmit_queue
    → IsReadable bp
    → sock.xmit_queue.bytes + (bp.tail - bp.head) < u32_mod
    → sock.write_eof ≡ 0
    → Accepted sock (contents bp) (queue_xmit clonebuf now sock bp).1
unfolding queue_xmit
queue_xmit-Accepted clonebuf now sock bp o v small eof =
    elim (Bool-cases (queue_empty sock.xmit_queue)) [
      | inl e ↦
          let sent = send_buffer now sock bp in
          let s : Sent sock bp sent = write_lem now sock v in
          let a : Accepted sent.1 (contents sent.2) (enqueue clonebuf 0 sent.1 sent.2).1 =
            (enqueue_lem clonebuf 0 sent.1 (subst IsOrdered (sym s.same_queue) o) s.readable
              (omega (arith, s.shorter, ap (λ q. q.bytes) s.same_queue))).1 in
          rw (is_open, e)
            (record {
              ordered = a.ordered;
              at_end = a.at_end ∙ after_write s (queue_empty→nil sock.xmit_queue e);
              same_eof = a.same_eof ∙ s.same_eof;
              grown = omega (
                arith,
                a.grown,
                ap (λ q. q.bytes) s.same_queue,
                length-contents s.readable,
                length-contents v,
                s.shorter,
              );
            })
      | inr e ↦ rw (is_open, e) ((enqueue_lem clonebuf 0 sock o v small).1)
    ]
  where
    is_open : not (sock.write_eof == 0) ≡ false
    is_open = ground arith
