-- ===== src/Socket/Synchronous.antt =====
-- `twopence_sock_xmit` of library/socket.c, the synchronous transmission: it ends, and where it does not
-- fail, the kernel has taken all that was queued and then the buffer.
use twopence.Prelude.{
  ℕ, zero, suc, ◌<◌, ◌≡◌, refl, sym, ap, ◌∙◌, subst, false, not, Option, none, some, [], ◌++◌,
  length, append-nil, arith, ◌==◌, Bool-cases, inl, inr, ==→eq, ==→ne,
}
use twopence.Buffer.{Buf, count}
use twopence.Buffer.Bounds.{IsReadable, count_lem}
use twopence.Buffer.Contents.{contents}
use twopence.Timeout.{Timeval}
use twopence.Queue.Order.{bytes_of, IsOrdered}
use twopence.Socket.{
  Sock, send_buffer, enqueue, xmit, xmit_flushed, send_all, flush_loop, flush_fuel,
}
use twopence.Socket.Stream.{stream, Sent, write_lem}
use twopence.Socket.Flush.{FlushEnd, flush_loop-FlushEnd, empty_contents}

-- The loop over one buffer ends: it fails, or the whole buffer has been taken.
record AllSent (sock : Sock) (bp : Buf) (o : Option (Option ℕ × Sock × Buf)) : Type 0 where
  result : Option ℕ
  after : Sock
  left : Buf
  returns : o ≡ some (result, after, left)
  readable : IsReadable left
  moved : after.wire ++ contents left ≡ sock.wire ++ contents bp
  same_queue : after.xmit_queue ≡ sock.xmit_queue
  same_eof : after.write_eof ≡ sock.write_eof
  whole : (m : ℕ) → result ≡ some m → count left ≡ 0

abbrev Sends : ℕ → Timeval → Type 0
Sends f now =
    (n : ℕ) (sock : Sock) (bp : Buf)
    → IsReadable bp
    → length sock.answers < f
    → AllSent sock bp (send_all f now n sock bp)

send_all_lem : (f : ℕ) (now : Timeval) → Sends f now
unfolding send_all
send_all_lem zero now n sock bp v h = absurd (omega arith)
send_all_lem (suc f) now n sock bp v h = elim (Bool-cases (count bp == 0)) [
  | inl e ↦ record {
    result = some n;
    after = sock;
    left = bp;
    returns = rw e refl;
    readable = v;
    moved = refl;
    same_queue = refl;
    same_eof = refl;
    whole = λ m q. ==→eq (count bp) 0 e;
  }
  | inr e ↦ go (send_buffer now sock bp).0 refl e (send_all_lem f now)
]
  where
    s : Sent sock bp (send_buffer now sock bp)
    s = write_lem now sock v

    go :
        (r : Option ℕ)
        → (send_buffer now sock bp).0 ≡ r
        → (count bp == 0) ≡ false
        → Sends f now
        → AllSent sock bp (send_all (suc f) now n sock bp)
    go none q e rec = record {
      result = none;
      after = (send_buffer now sock bp).1;
      left = (send_buffer now sock bp).2;
      returns =
          rw (e, q)
            (ap (λ r. some (r, (send_buffer now sock bp).1, (send_buffer now sock bp).2)) q);
      readable = s.readable;
      moved = s.moved;
      same_queue = s.same_queue;
      same_eof = s.same_eof;
      whole = λ m x. absurd (cc x);
    }
    go (some m) q e rec =
        let a : AllSent (send_buffer now sock bp).1 (send_buffer now sock bp).2
            (send_all f now m (send_buffer now sock bp).1 (send_buffer now sock bp).2) =
          rec m (send_buffer now sock bp).1 (send_buffer now sock bp).2 s.readable
            (omega (arith, s.used m q (omega (arith, count_lem v, ==→ne (count bp) 0 e)))) in
        record {
          result = a.result;
          after = a.after;
          left = a.left;
          returns = rw (e, q) a.returns;
          readable = a.readable;
          moved = a.moved ∙ s.moved;
          same_queue = a.same_queue ∙ s.same_queue;
          same_eof = a.same_eof ∙ s.same_eof;
          whole = a.whole;
        }

-- The second half of `xmit`, on a socket whose queue is empty.
xmit_flushed_lem :
    (now : Timeval) (n : ℕ) (sock : Sock) (bp : Buf)
    → IsOrdered sock.xmit_queue
    → IsReadable bp
    → sock.xmit_queue.packets ≡ []
    → (r : Option ℕ) × (sock' : Sock) × (bp' : Buf) × (xmit_flushed now bp (some (some n, sock))
        ≡ some (r, sock', bp'))
      × IsOrdered sock'.xmit_queue
      × ((m : ℕ)
          → r ≡ some m
          → (sock'.wire ≡ sock.wire ++ contents bp) × (sock'.xmit_queue.packets ≡ []))
unfolding xmit_flushed enqueue
xmit_flushed_lem now n sock bp o v nil = go a.result refl
  where
    a : AllSent sock bp (send_all (suc (length sock.answers)) now n sock bp)
    a = send_all_lem (suc (length sock.answers)) now n sock bp v (omega arith)

    ordered : IsOrdered a.after.xmit_queue
    ordered = subst IsOrdered (sym a.same_queue) o

    go :
        (k : Option ℕ)
        → a.result ≡ k
        → (r : Option ℕ) × (sock' : Sock) × (bp' : Buf) × (xmit_flushed now bp (some (some n, sock))
            ≡ some (r, sock', bp'))
          × IsOrdered sock'.xmit_queue
          × ((m : ℕ)
              → r ≡ some m
              → (sock'.wire ≡ sock.wire ++ contents bp) × (sock'.xmit_queue.packets ≡ []))
    go none e = (
      none,
      a.after,
      a.left,
      rw (a.returns ∙ ap (λ k. some (k, a.after, a.left)) e, xmit_flushed) refl,
      ordered,
      λ m q. absurd (cc q),
    )
    go (some m) e = (
      some m,
      a.after,
      a.left,
      rw (a.returns ∙ ap (λ k. some (k, a.after, a.left)) e, xmit_flushed) (rw (a.whole m e) refl),
      ordered,
      λ k q. (
        sym (append-nil a.after.wire)
            ∙ ap (◌++◌ a.after.wire) (sym (empty_contents a.readable (a.whole m e)))
            ∙ a.moved,
        ap (λ q. q.packets) a.same_queue ∙ nil,
      ),
    )

-- On an open socket with an ordered queue, xmit ends for every sequence of results of the kernel
-- and fails no assertion; the queue is ordered again, and where the result is not -1, the kernel
-- has taken, after what it had before, first all bytes that were queued and then the whole buffer,
-- and the queue is empty.
pub xmit-Accepted :
    (now : Timeval) (sock : Sock) (bp : Buf)
    → IsOrdered sock.xmit_queue
    → IsReadable bp
    → sock.write_eof ≡ 0
    → (r : Option ℕ) × (sock' : Sock) × (bp' : Buf) × (xmit now sock bp ≡ some (r, sock', bp'))
      × IsOrdered sock'.xmit_queue
      × ((m : ℕ)
          → r ≡ some m
          → (sock'.wire ≡ stream sock ++ contents bp) × (sock'.xmit_queue.packets ≡ []))
unfolding xmit xmit_flushed
xmit-Accepted now sock bp o v eof = go flushed.result refl
  where
    is_open : not (sock.write_eof == 0) ≡ false
    is_open = ground arith

    flushed : FlushEnd sock (flush_loop (flush_fuel sock) now 0 sock)
    flushed = flush_loop-FlushEnd now 0 sock o

    go :
        (r : Option ℕ)
        → flushed.result ≡ r
        → (r : Option ℕ) × (sock' : Sock) × (bp' : Buf) × (xmit now sock bp ≡ some (r, sock', bp'))
          × IsOrdered sock'.xmit_queue
          × ((m : ℕ)
              → r ≡ some m
              → (sock'.wire ≡ stream sock ++ contents bp) × (sock'.xmit_queue.packets ≡ []))
    go none e = (
      none,
      flushed.after,
      bp,
      rw (is_open, flushed.returns ∙ ap (λ r. some (r, flushed.after)) e) refl,
      flushed.flushed.ordered,
      λ m q. absurd (cc q),
    )
    go (some n) e =
        let nil = flushed.empty n e in
        let (r, sock', bp', returns, ordered, done) =
          xmit_flushed_lem now n flushed.after bp flushed.flushed.ordered v nil in
        (
          r,
          sock',
          bp',
          rw (is_open, flushed.returns ∙ ap (λ r. some (r, flushed.after)) e) returns,
          ordered,
          λ m q. (
            (done m q).0
                ∙ ap (λ l. l ++ contents bp)
                    (sym (append-nil flushed.after.wire)
                      ∙ ap (λ ps. flushed.after.wire ++ bytes_of ps) (sym nil)
                      ∙ flushed.flushed.same_stream),
            (done m q).1,
          ),
        )
