-- ===== src/Socket/Shutdown.antt =====
-- The end of the transmission in library/socket.c: after `twopence_sock_shutdown_write` nothing more is
-- accepted, and the descriptor is shut down when the queue has been drained, not before.
use twopence.Prelude.{
  ℕ, ◌≡◌, refl, sym, ap, ◌∙◌, subst, Bool, true, false, not, ◌&&◌, ◌||◌, Option, none, some, List,
  ◌++◌, arith, ◌==◌, Bool-cases, inl, inr, if◌then◌else◌,
}
use twopence.Buffer.{Buf, tailroom}
use twopence.Timeout.{Timeval}
use twopence.Queue.{queue_empty}
use twopence.Queue.Order.{bytes_of, IsOrdered}
use twopence.Socket.{
  Sock, shutdown_wanted, shutdown_sent, try_shutdown, shutdown_write, queue_xmit, is_write_eof,
}
use twopence.Socket.Doio.{
  Revents, recv_buffer, read_result, doio_read, doio_shutdown, doio_sent, doio,
}
use twopence.Socket.Stream.{stream}
use twopence.Socket.Flush.{Flushed, send_queued-Flushed}

-- What a read does not touch.
record SameOut (sock sock' : Sock) : Type 0 where
  same_queue : sock'.xmit_queue ≡ sock.xmit_queue
  same_wire : sock'.wire ≡ sock.wire
  same_eof : sock'.write_eof ≡ sock.write_eof

read_result-SameOut :
    (sock : Sock) (hup : Bool) (r : Option ℕ × Buf) → SameOut sock (read_result sock hup r).1
read_result-SameOut sock true (none, bp) = record {
  same_queue = refl;
  same_wire = refl;
  same_eof = refl;
}
read_result-SameOut sock false (none, bp) = record {
  same_queue = refl;
  same_wire = refl;
  same_eof = refl;
}
read_result-SameOut sock hup (some n, bp) = record {
  same_queue = refl;
  same_wire = refl;
  same_eof = refl;
}

doio_read-SameOut :
    (sock : Sock) (revents : Revents) (arrived : Option (List ℕ))
    → SameOut sock (doio_read sock revents arrived).1
unfolding doio_read
doio_read-SameOut sock revents arrived = go sock.recv_buf
  where
    same : SameOut sock sock
    same = record { same_queue = refl; same_wire = refl; same_eof = refl }

    go :
        (o : Option Buf) → SameOut sock (doio_read (record sock { recv_buf = o }) revents arrived).1
    go none = record { same_queue = refl; same_wire = refl; same_eof = refl }
    go (some bp) =
        elim (Bool-cases ((revents.pollin || revents.pollhup) && not (tailroom bp == 0))) [
          | inl e ↦
              let s =
                read_result-SameOut (record sock { recv_buf = some bp }) revents.pollhup
                  (recv_buffer bp arrived) in
              rw e (record {
                same_queue = s.same_queue;
                same_wire = s.same_wire;
                same_eof = s.same_eof;
              })
          | inr e ↦ rw e (record { same_queue = refl; same_wire = refl; same_eof = refl })
        ]

-- The state of the transmission after a step.
pub record Out (sock sock' : Sock) : Type 0 where
  pub ordered : IsOrdered sock'.xmit_queue
  pub same_stream : stream sock' ≡ stream sock
  pub still_open : sock.write_eof ≡ 0 → sock'.write_eof ≡ 0

doio_shutdown-Out :
    (sock : Sock)
    → IsOrdered sock.xmit_queue
    → Out sock (doio_shutdown sock)
      × (sock.write_eof ≡ shutdown_wanted
          → is_write_eof (doio_shutdown sock) ≡ queue_empty (doio_shutdown sock).xmit_queue)
unfolding try_shutdown is_write_eof
doio_shutdown-Out sock o = elim (Bool-cases (sock.write_eof == 1)) [
  | inl e ↦ elim (Bool-cases (queue_empty sock.xmit_queue)) [
    | inl q ↦
        rw (e, q)
          (
            record { ordered = o; same_stream = refl; still_open = λ z. absurd (ground arith) },
            λ w. sym q,
          )
    | inr q ↦
        rw (e, q)
          (record { ordered = o; same_stream = refl; still_open = λ z. z }, λ w. rw (w, q) refl)
  ]
  | inr e ↦
      rw e (
        record { ordered = o; same_stream = refl; still_open = λ z. z },
        λ w. absurd (ground arith),
      )
]

Out-trans : {a b c : Sock} → Out a b → Out b c → Out a c
Out-trans f g = record {
  ordered = g.ordered;
  same_stream = g.same_stream ∙ f.same_stream;
  still_open = λ z. g.still_open (f.still_open z);
}

Flushed-Out : {a b : Sock} {r : Option ℕ} → Flushed a r b → Out a b
Flushed-Out f = record {
  ordered = f.ordered;
  same_stream = f.same_stream;
  still_open = λ z. f.same_eof ∙ z;
}

SameOut-Out : {a b : Sock} → IsOrdered a.xmit_queue → SameOut a b → Out a b
SameOut-Out {a} {b} o s = record {
  ordered = subst IsOrdered (sym s.same_queue) o;
  same_stream =
      ap (λ w. w ++ bytes_of b.xmit_queue.packets) s.same_wire
      ∙ ap (λ q. a.wire ++ bytes_of q.packets) s.same_queue;
  still_open = λ z. s.same_eof ∙ z;
}

-- The result of `doio`, where it is not a failed assertion.
pub record Doio (sock : Sock) (o : Option (Bool × Sock)) : Type 0 where
  pub ok : Bool
  pub after : Sock
  pub returns : o ≡ some (ok, after)
  pub out : Out sock after
  pub drained :
      ok ≡ true
      → sock.write_eof ≡ shutdown_wanted
      → is_write_eof after ≡ queue_empty after.xmit_queue

doio_sent-Doio :
    (sock : Sock) (revents : Revents) (arrived : Option (List ℕ)) (r : Option ℕ) (sock' : Sock)
    → Out sock sock'
    → sock'.write_eof ≡ sock.write_eof
    → Doio sock (doio_sent revents arrived (some (r, sock')))
unfolding is_write_eof
doio_sent-Doio sock revents arrived none sock' f e = record {
  ok = false;
  after = sock';
  returns = refl;
  out = f;
  drained = λ t. absurd (cc t);
}
doio_sent-Doio sock revents arrived (some n) sock' f e =
    let (shut, drained) = doio_shutdown-Out sock' f.ordered in
    let s : SameOut (doio_shutdown sock') (doio_read (doio_shutdown sock') revents arrived).1 =
      doio_read-SameOut (doio_shutdown sock') revents arrived in
    record {
      ok = (doio_read (doio_shutdown sock') revents arrived).0;
      after = (doio_read (doio_shutdown sock') revents arrived).1;
      returns = refl;
      out = Out-trans (Out-trans f shut) (SameOut-Out shut.ordered s);
      drained = λ t w.
          ap (λ k. k == shutdown_sent) s.same_eof
          ∙ drained (e ∙ w)
          ∙ ap queue_empty (sym s.same_queue);
    }

-- Work on a polled socket with an ordered queue, whose descriptor poll does not call invalid,
-- fails no assertion, keeps the stream of the bytes taken and queued, and leaves an open socket
-- open; after a call that succeeds, a socket whose shutdown was wanted is shut down exactly if its
-- queue is empty.
pub doio-Doio :
    (now : Timeval) (sock : Sock) (revents : Revents) (arrived : Option (List ℕ))
    → IsOrdered sock.xmit_queue
    → revents.pollnval ≡ false
    → Doio sock (doio now sock revents arrived)
unfolding doio doio_read
doio-Doio now sock revents arrived o h =
    let (r, sock', e, f) = send_queued-Flushed now sock o in
    elim (Bool-cases revents.pollout) [
      | inl p ↦
          rw (h, p, e) (doio_sent-Doio sock revents arrived r sock' (Flushed-Out f) f.same_eof)
      | inr p ↦
          rw (h, p)
            (doio_sent-Doio sock revents arrived (some 0) sock
              (record { ordered = o; same_stream = refl; still_open = λ z. z }) refl)
    ]

-- After shutdown_write a socket accepts nothing more, its queue and its stream are as they were,
-- and the descriptor of a socket that was open is shut down exactly if nothing is queued; of
-- another socket the state of the descriptor stays as it was.
pub shutdown_write-queue_xmit :
    (clonebuf : Bool) (now : Timeval) (sock : Sock) (bp : Buf)
    → (queue_xmit clonebuf now (shutdown_write sock) bp ≡ (some 0, shutdown_write sock, bp))
      × ((shutdown_write sock).xmit_queue ≡ sock.xmit_queue)
      × (stream (shutdown_write sock) ≡ stream sock)
      × (is_write_eof (shutdown_write sock)
          ≡ (if sock.write_eof == 0 then queue_empty sock.xmit_queue else is_write_eof sock))
unfolding queue_xmit shutdown_write try_shutdown is_write_eof
shutdown_write-queue_xmit clonebuf now sock bp = elim (Bool-cases (sock.write_eof == 0)) [
  | inl e ↦ elim (Bool-cases (queue_empty sock.xmit_queue)) [
    | inl q ↦ rw (e, q) (refl, refl, refl, refl)
    | inr q ↦ rw (e, q) (refl, refl, refl, refl)
  ]
  | inr e ↦ rw (e, e) (refl, refl, refl, refl)
]
