-- ===== src/Connection/Delivery.antt =====
-- What library/connection.c does with the data packets of a peer: the pieces come to the sink of the
-- transaction, in order.
use twopence.Prelude.{
  ℕ, zero, suc, ◌+◌, ◌≤◌, ◌<◌, ◌≡◌, refl, sym, ap, ◌∙◌, true, false, Bool, Bool-cases, inl, inr,
  ◌⊎◌, ◌&&◌, if◌then◌else◌, none, some, Option, List, [], ◌∷◌, ◌++◌, length, length-append,
  append_assoc, append-nil, u32_mod, arith,
}
use twopence.Buffer.{Buf, count}
use twopence.Buffer.Bounds.{IsReadable, count_lem}
use twopence.Buffer.Contents.{contents, length-contents}
use twopence.Timeout.{Timeval}
use twopence.Queue.Order.{IsOrdered}
use twopence.Socket.{Sock, xmit_queue_allowed}
use twopence.Socket.Stream.{stream}
use twopence.Socket.Transmit.{Accepted}
use twopence.Protocol.{State}
use twopence.Protocol.Dissect.{buffer_complete}
use twopence.Iostream.{Iostream}
use twopence.Transaction.Forward.{Work, ReadEof, without_callback, called, forward_end, forward}
use twopence.Transaction.Forwarding.{Sends, forward-Sends}
use twopence.Transaction.Piece.{CanTake}
use twopence.Iostream.ReadAll.{pending}
use twopence.Iostream.Reading.{AllSources}
use twopence.Transaction.Framed.{data_frame, frames, flat, AllShort}
use twopence.Connection.{Conn, Handlers, Outcome, returned, process_loop, process_packet}
use twopence.Connection.Round.{Round, IsReceiving, round_lem}

-- What the loop returns when it has given `d` to the sink.
pub record Delivered (conn : Conn) (xid id : ℕ) (sock : Sock) (d : List ℕ) (o : Outcome)
    : Type 0 where
  pub conn' : Conn
  pub bp' : Buf
  pub sock' : Sock
  pub done : o ≡ returned true conn' bp'
  pub empty : contents bp' ≡ []
  pub receiving : IsReceiving conn' xid id sock'
  pub accepted : Accepted sock d sock'

Accepted-nil : {sock : Sock} → IsOrdered sock.xmit_queue → Accepted sock [] sock
Accepted-nil {sock} o = record {
  ordered = o;
  at_end = sym (append-nil (stream sock));
  same_eof = refl;
  grown = omega arith;
}

Accepted-append :
    {a b c : Sock} (d e : List ℕ) → Accepted a d b → Accepted b e c → Accepted a (d ++ e) c
Accepted-append {a} d e p q = record {
  ordered = q.ordered;
  at_end = q.at_end ∙ ap (λ l. l ++ e) p.at_end ∙ append_assoc (stream a) d e;
  same_eof = q.same_eof ∙ p.same_eof;
  grown = omega (arith, p.grown, q.grown, length-append d e);
}

empty_not_complete : {bp : Buf} → IsReadable bp → contents bp ≡ [] → buffer_complete bp ≡ false
unfolding buffer_complete
empty_not_complete {bp} v e = ground (arith, count_lem v, length-contents v, ap length e)

process_loop-Delivered :
    (f : ℕ) (now : Timeval) (h : Handlers) (conn : Conn) (bp : Buf) (ps : State) (id : ℕ)
    (sock : Sock) (ds : List (List ℕ))
    → ps.cid < 65536
    → ps.xid < 65536
    → id < 65536
    → AllShort ds
    → length ds < f
    → IsReadable bp
    → contents bp ≡ frames ps id ds
    → conn.client_id ≡ ps.cid
    → IsReceiving conn ps.xid id sock
    → sock.xmit_queue.bytes + length (flat ds) < u32_mod
    → Delivered conn ps.xid id sock (flat ds) (process_loop f now h conn bp)
unfolding process_loop
process_loop-Delivered zero now h conn bp ps id sock ds hc hx hi short enough v e ours r room =
    absurd (omega arith)
process_loop-Delivered (suc f) now h conn bp ps id sock [] hc hx hi short enough v e ours r room =
    rw (empty_not_complete v e) (record {
      conn' = conn;
      bp' = bp;
      sock' = sock;
      done = refl;
      empty = e;
      receiving = r;
      accepted = Accepted-nil r.ordered;
    })
process_loop-Delivered (suc f) now h conn bp ps id sock (d ∷ ds) hc hx hi short enough v e ours r
      room =
    let len = length-append d (flat ds) in
    let k : Round now h conn bp ps.xid id sock d (frames ps id ds) =
      round_lem now h conn bp ps id sock d (frames ps id ds) hc hx hi (short.0) v e ours r
        (omega (arith, len)) in
    let rest : Delivered k.conn' ps.xid id k.sock' (flat ds) _ =
      process_loop-Delivered f now h k.conn' k.bp' ps id k.sock' ds hc hx hi (short.1) (omega arith)
        k.readable k.behind (k.same_client ∙ ours) k.receiving
        (omega (arith, len, k.accepted.grown)) in
    record {
      conn' = rest.conn';
      bp' = rest.bp';
      sock' = rest.sock';
      done = k.stepped f ∙ rest.done;
      empty = rest.empty;
      receiving = rest.receiving;
      accepted = Accepted-append d (flat ds) k.accepted rest.accepted;
    }

frames-length : (ps : State) (id : ℕ) (ds : List (List ℕ)) → length ds ≤ length (frames ps id ds)
frames-length ps id [] = omega arith
frames-length ps id (d ∷ ds) =
    omega (arith, frames-length ps id ds, length-append (data_frame ps id d) (frames ps id ds))

-- A receive buffer that holds data packets for a running transaction, each of a length below 2^16,
-- is processed to its end if the sink for the channel has an open socket with an ordered queue and
-- room in its count: the result is true and the buffer empty, the stream of the sink has grown by
-- the data of all packets, in order, and the transaction still runs.
pub process_packet-Delivered :
    (now : Timeval) (h : Handlers) (conn : Conn) (bp : Buf) (ps : State) (id : ℕ) (sock : Sock)
    (ds : List (List ℕ))
    → ps.cid < 65536
    → ps.xid < 65536
    → id < 65536
    → AllShort ds
    → IsReadable bp
    → contents bp ≡ frames ps id ds
    → conn.client_id ≡ ps.cid
    → IsReceiving conn ps.xid id sock
    → sock.xmit_queue.bytes + length (flat ds) < u32_mod
    → Delivered conn ps.xid id sock (flat ds) (process_packet now h conn bp)
unfolding process_packet
process_packet-Delivered now h conn bp ps id sock ds hc hx hi short v e ours r room =
    process_loop-Delivered (suc (count bp)) now h conn bp ps id sock ds hc hx hi short
      (omega (arith, frames-length ps id ds, ap length e, length-contents v, count_lem v)) v e ours
      r room

-- The bytes on the transport after a forward.
abbrev pub sent_bytes : Option Work → List ℕ
sent_bytes none = []
sent_bytes (some w) = stream w.transport

-- A source without a callback for its end stays on its channel.
pub forward_end-quiet :
    (callback : ReadEof) (w : Work) (left : Iostream)
    → w.channel.on_read_eof ≡ false
    → forward_end callback w left
      ≡ some (record w { channel = record w.channel { stream = some left } })
unfolding forward_end
forward_end-quiet callback w left e = elim (Bool-cases left.eof) [
  | inl t ↦
      ap
        (λ b.
          if b && w.channel.on_read_eof
          then called w (record (without_callback w.channel) { stream = none })
              (callback w.trans w.transport w.channel.id)
          else some (record w { channel = record w.channel { stream = some left } }))
        t
      ∙ ap
          (λ b.
            if b
            then called w (record (without_callback w.channel) { stream = none })
                (callback w.trans w.transport w.channel.id)
            else some (record w { channel = record w.channel { stream = some left } }))
          e
  | inr t ↦
      ap
        (λ b.
          if b && w.channel.on_read_eof
          then called w (record (without_callback w.channel) { stream = none })
              (callback w.trans w.transport w.channel.id)
          else some (record w { channel = record w.channel { stream = some left } }))
        t
]

-- What a forward and the peer that receives it have done: `d` has left the source, in front of `left`,
-- and has come to the sink.
pub record Arrived (source : Iostream) (conn : Conn) (xid id : ℕ) (sock : Sock) (o : Option Work)
    (received : Outcome) : Type 0 where
  pub after : Work
  pub left : Iostream
  pub d : List ℕ
  pub returns : o ≡ some after
  pub attached : after.channel.stream ≡ some left
  pub kept : pending source.substreams ≡ d ++ pending left.substreams
  pub ended : left.eof ≡ true → pending left.substreams ≡ []
  pub why :
      (left.eof ≡ true) ⊎ (left.substreams ≡ []) ⊎ (xmit_queue_allowed after.transport ≡ false)
  pub delivered : Delivered conn xid id sock d received

-- What one side forwards, the other side receives: if a source is not at its end, its substreams
-- can be read without an error, its channel is not plugged and has no callback for the end of the
-- data, the transport is open and empty with an ordered queue whose limit is at most 2^31, and ids
-- fit 16 bits, then forward succeeds with some bytes taken from the front of the source; it stops
-- only at the end of the source, where the source has no substreams or where the queue is full;
-- and a connection of that client that processes a readable buffer of the bytes now on the
-- transport, with a running transaction of that id whose sink for the channel has an open socket
-- with an ordered queue and room in its count for all of the source, returns true with an empty
-- buffer, and the stream of that sink has grown by exactly the bytes taken.
pub forward-Delivered :
    (now now' : Timeval) (callback : ReadEof) (again : Bool) (w : Work) (source : Iostream)
    (h : Handlers) (conn : Conn) (bp : Buf) (sock : Sock)
    → w.channel.stream ≡ some source
    → w.channel.plugged ≡ false
    → w.channel.on_read_eof ≡ false
    → source.eof ≡ false
    → AllSources source.substreams
    → CanTake w.transport
    → stream w.transport ≡ []
    → w.trans.ps.cid < 65536
    → w.trans.ps.xid < 65536
    → w.channel.id < 65536
    → IsReadable bp
    → contents bp ≡ sent_bytes (forward now callback again w)
    → conn.client_id ≡ w.trans.ps.cid
    → IsReceiving conn w.trans.ps.xid w.channel.id sock
    → sock.xmit_queue.bytes + length (pending source.substreams) < u32_mod
    → Arrived source conn w.trans.ps.xid w.channel.id sock
        (forward now callback again w)
        (process_packet now' h conn bp)
forward-Delivered now now' callback again w source h conn bp sock has plugged quiet o srcs can empty
      hc hx hi v e ours r room =
    let s : Sends callback w source (forward now callback again w) =
      forward-Sends now callback again w source has plugged o srcs can in
    let returns =
      s.done ∙ forward_end-quiet callback (record w { transport = s.transport }) s.left quiet in
    let len = ap length s.kept ∙ length-append (flat s.pieces) (pending s.left.substreams) in
    record {
      after = _;
      left = s.left;
      d = flat s.pieces;
      returns = returns;
      attached = refl;
      kept = s.kept;
      ended = s.ended;
      why = s.why;
      delivered =
          process_packet-Delivered now' h conn bp w.trans.ps w.channel.id sock s.pieces hc hx hi
            s.short v
            (e
              ∙ ap sent_bytes returns
              ∙ s.sent
              ∙ ap (λ l. l ++ frames w.trans.ps w.channel.id s.pieces) empty)
            ours r (omega (arith, len));
    }
