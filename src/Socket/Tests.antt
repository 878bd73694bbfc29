-- ===== src/Socket/Tests.antt =====
-- Sockets of library/socket.c with a kernel that takes a few bytes at a time, and the theorems applied.
use twopence.Prelude.{ℕ, ◌≡◌, refl, true, false, Option, none, some, List, [], ◌∷◌, ◌++◌, arith}
use twopence.Buffer.{Buf, init, count, advance_head}
use twopence.Buffer.Bounds.{IsReadable}
use twopence.Buffer.Contents.{contents}
use twopence.Timeout.{Timeval, never}
use twopence.Queue.{queue_dequeue, queue_empty}
use twopence.Prelude.{if◌then◌else◌, ◌==◌}
use twopence.Queue.Order.{IsOrdered}
use twopence.Socket.{
  Sock, queue_xmit, xmit, send_queued, flush_loop, flush_fuel, send_all, send_buffer, write,
  enqueue, shutdown_write, is_write_eof, xmit_flushed,
}
use twopence.Socket.Doio.{Revents, doio}
use twopence.Socket.Stream.{stream}
use twopence.Socket.Flush.{Flushed, FlushEnd, send_queued-Flushed, flush_loop-FlushEnd}
use twopence.Socket.Transmit.{Accepted, queue_xmit-Accepted}
use twopence.Socket.Synchronous.{xmit-Accepted}
use twopence.Socket.Shutdown.{Doio, doio-Doio, shutdown_write-queue_xmit}

abbrev now : Timeval
now = record { sec = 100; usec = 0 }

-- "abc" and "de"
abbrev abc : Buf
abc = record init { base = b'a' ∷ b'b' ∷ b'c' ∷ []; tail = 3; size = 3 }

abbrev de : Buf
de = record init { base = b'd' ∷ b'e' ∷ []; tail = 2; size = 2 }

abc-IsReadable : IsReadable abc
abc-IsReadable = omega arith

de-IsReadable : IsReadable de
de-IsReadable = omega arith

-- A socket that has "abc" in its queue; the kernel will take two bytes, then fail, then take all.
abbrev waiting : List (Option ℕ) → ℕ → Sock
waiting answers write_eof = record {
  fd = 5;
  poll_data = none;
  bytes_sent = 0;
  xmit_queue = record {
    seq_head = 0;
    seq_tail = 1;
    bytes = 3;
    max_bytes = 1048576;
    packets = record { seq = 0; bytes = 3; buffer = abc } ∷ [];
  };
  ts_enabled = false;
  ts_when = never;
  recv_buf = none;
  read_eof = false;
  write_eof = write_eof;
  answers = answers;
  wire = [];
}

abbrev slow : Sock
slow = waiting (some 2 ∷ some 9 ∷ some 1 ∷ some 1 ∷ []) 0

slow-IsOrdered : IsOrdered slow.xmit_queue
slow-IsOrdered = record {
  numbered = (refl, abc-IsReadable, omega arith, refl);
  counted = refl;
  narrow = omega arith;
}

abbrev draining : Sock
draining = waiting (some 9 ∷ []) 1

abbrev writable : Revents
writable = record { pollnval = false; pollout = true; pollin = false; pollhup = false }

xmit-slow :
    (sock : Sock) × (bp : Buf) × (xmit now slow de ≡ some (some 1, sock, bp))
    × (sock.wire ≡ b'a' ∷ b'b' ∷ b'c' ∷ b'd' ∷ b'e' ∷ [])
unfolding xmit flush_loop send_queued send_all send_buffer write enqueue count advance_head
    queue_dequeue xmit_flushed
xmit-slow = (_, _, refl, refl)

send_queued-Flushed_example :
    (r : Option ℕ) × (sock' : Sock) × (send_queued now slow ≡ some (r, sock'))
    × Flushed slow r sock'
send_queued-Flushed_example = send_queued-Flushed now slow slow-IsOrdered

flush_loop-FlushEnd_example : FlushEnd slow (flush_loop (flush_fuel slow) now 0 slow)
flush_loop-FlushEnd_example = flush_loop-FlushEnd now 0 slow slow-IsOrdered

queue_xmit-Accepted_example : Accepted slow (contents de) (queue_xmit true now slow de).1
queue_xmit-Accepted_example =
    queue_xmit-Accepted true now slow de slow-IsOrdered de-IsReadable (omega arith) refl

xmit-Accepted_example :
    (r : Option ℕ) × (sock' : Sock) × (bp' : Buf) × (xmit now slow de ≡ some (r, sock', bp'))
    × IsOrdered sock'.xmit_queue
    × ((m : ℕ)
        → r ≡ some m
        → (sock'.wire ≡ stream slow ++ contents de) × (sock'.xmit_queue.packets ≡ []))
xmit-Accepted_example = xmit-Accepted now slow de slow-IsOrdered de-IsReadable refl

doio-Doio_example : Doio draining (doio now draining writable none)
doio-Doio_example = doio-Doio now draining writable none slow-IsOrdered refl

shutdown_write-queue_xmit_example :
    (queue_xmit false now (shutdown_write slow) de ≡ (some 0, shutdown_write slow, de))
    × ((shutdown_write slow).xmit_queue ≡ slow.xmit_queue)
    × (stream (shutdown_write slow) ≡ stream slow)
    × (is_write_eof (shutdown_write slow)
        ≡ (if slow.write_eof == 0 then queue_empty slow.xmit_queue else is_write_eof slow))
shutdown_write-queue_xmit_example = shutdown_write-queue_xmit false now slow de
