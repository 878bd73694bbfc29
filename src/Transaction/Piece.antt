-- ===== src/Transaction/Piece.antt =====
-- A piece of a source's data goes out on a transport of library/transaction.c whose queue is not full.
use twopence.Prelude.{
  ℕ, ◌+◌, ◌-◌, ◌^◌, ◌≤◌, ◌<◌, ◌≡◌, refl, ap, ◌∙◌, true, false, some, List, ◌++◌, length, arith,
}
use twopence.Buffer.{Buf}
use twopence.Buffer.Bounds.{IsValid-IsReadable}
use twopence.Buffer.Contents.{contents}
use twopence.Timeout.{Timeval}
use twopence.Queue.Order.{IsOrdered}
use twopence.Queue.{queue_full, queue_append}
use twopence.Socket.{
  send_buffer, write, enqueue, Sock, queue_xmit, xmit_queue_allowed, send_buffer, write, enqueue,
}
use twopence.Socket.Stream.{stream}
use twopence.Socket.Transmit.{Accepted, queue_xmit-Accepted}
use twopence.Protocol.{State, header_size, max_packet}
use twopence.Transaction.{send_client}
use twopence.Transaction.Forward.{data_packet}
use twopence.Transaction.Framed.{data_frame, IsRoomy, data_packet-IsPacket}

-- A transport that is open, with a queue whose limit is far below the range of its count.
pub record CanTake (sock : Sock) : Type 0 where
  pub ordered : IsOrdered sock.xmit_queue
  pub is_open : sock.write_eof ≡ 0
  pub limit : sock.xmit_queue.max_bytes ≤ 2 ^ 31

queue_xmit-max_bytes :
    (now : Timeval) (sock : Sock) (bp : Buf)
    → (queue_xmit false now sock bp).1.xmit_queue.max_bytes ≡ sock.xmit_queue.max_bytes
unfolding queue_xmit send_buffer write enqueue queue_append
queue_xmit-max_bytes now sock bp = ground arith

allowed→room :
    (sock : Sock)
    → xmit_queue_allowed sock ≡ true
    → sock.xmit_queue.bytes < sock.xmit_queue.max_bytes
unfolding xmit_queue_allowed queue_full
allowed→room sock h = ground arith

-- A piece of data goes out on a transport whose queue is not full.
pub send_piece :
    {bp : Buf} (now : Timeval) (sock : Sock) (d : List ℕ) (ps : State) (id : ℕ)
    → IsRoomy bp
    → length d ≤ max_packet - (header_size + 2)
    → CanTake sock
    → xmit_queue_allowed sock ≡ true
    → (sock' : Sock) × (send_client now sock (data_packet bp d ps id) ≡ some sock')
      × CanTake sock'
      × (stream sock' ≡ stream sock ++ data_frame ps id d)
unfolding send_client
send_piece now sock d ps id r l c a =
    let (p, done, bytes, v, small) = data_packet-IsPacket d ps id r l in
    let k : Accepted sock (contents p) (queue_xmit false now sock p).1 =
      queue_xmit-Accepted false now sock p c.ordered (IsValid-IsReadable v)
        (omega (arith, small, c.limit, allowed→room sock a)) c.is_open in
    (
      (queue_xmit false now sock p).1,
      rw (done, send_client) refl,
      record {
        ordered = k.ordered;
        is_open = k.same_eof ∙ c.is_open;
        limit = omega (arith, queue_xmit-max_bytes now sock p, c.limit);
      },
      k.at_end ∙ ap (◌++◌ (stream sock)) bytes,
    )
