-- ===== src/Connection/Tests.antt =====
-- A connection of library/connection.c on concrete packets, and the theorems applied.
use twopence.Protocol.Dissect.{dissect_hello_packet}
use twopence.Prelude.{
  ℕ, ◌+◌, ◌*◌, ◌-◌, ◌≤◌, ◌<◌, ◌≡◌, refl, ap, ◌∙◌, true, false, none, some, List, [], ◌∷◌, length,
  length-append, replicate, take-all, arith,
}
use twopence.Buffer.Contents.{contents}
use twopence.Timeout
use twopence.Timeout.{Pollinfo, pollinfo_init}
use twopence.Iostream.{Iostream}
use twopence.Iostream.Parts.{buffer}
use twopence.Iostream.ReadAll.{pending}
use twopence.Protocol.{State, type_command}
use twopence.Socket.Stream.{stream}
use twopence.Socket.Doio.{Events, Revents, doio, doio_polled}
use twopence.Transaction.{Channel, Trans, find_channel, list_purge}
use twopence.Transaction.Forward.{Work, ReadEof, forward, channel_doio, doio_forward, doio_eof}
use twopence.Transaction.Framed.{AllShort, flat, frames}
use twopence.Transaction.Piece.{CanTake}
use twopence.Transaction.Forwarding.{Sends, AllFull-length, forward-Sends}
use twopence.Transaction.Doio.{transaction_doio, doio_all}
use twopence.Connection.{find_transaction}
use twopence.Connection.Round.{IsReceiving}
use twopence.Connection.Delivery.{
  Delivered, Arrived, sent_bytes, forward_end-quiet, process_packet-Delivered, forward-Delivered,
}
use twopence.Connection.Link.{Link, cancel_transactions}
use twopence.Connection.Stuck.{Rounds, Stuck}
use twopence.Connection.Cancel.{Cancelled, cancel_transactions-Cancelled}
use twopence.Connection.Doio.{Env, doio_rest, conn_doio, conn_fill_poll}
use twopence.Connection.Pending.{AllWork, Sorted, results, doio_rest-Sorted, doio_failed-fault}
use twopence.Buffer.{Buf, init, get, count}
use twopence.Buffer.Bounds.{IsReadable}
use twopence.Timeout.{Timeval, never}
use twopence.Socket.{Sock, read_write, sock_new, mark_dead, is_dead, take_recvbuf}
use twopence.Transaction.Status.{CanSend}
use twopence.Connection.{Conn, Handlers, process_packet}
use twopence.Connection.Packets.{Processed, process_packet-Processed}
use twopence.Connection.Keepalive.{negotiated, period}

abbrev now : Timeval
now = record { sec = 100; usec = 0 }

abbrev transport : Sock
transport = sock_new 3 (some 9 ∷ []) read_write

transport-CanSend : CanSend transport
unfolding sock_new
transport-CanSend = record {
  ordered = record { numbered = refl; counted = refl; narrow = omega arith };
  is_open = refl;
  room = omega arith;
}

abbrev conn : Conn
conn = record {
  client_sock = transport;
  client_id = 1;
  send_timeout = 15;
  send_deadline = never;
  recv_timeout = 60;
  recv_deadline = never;
  transactions = [];
}

abbrev no_handlers : Handlers
no_handlers = record {
  fresh = λ n. replicate n 0;
  process_request = none;
  recv = λ trans. none;
  eof = λ trans id. trans;
}

-- A keepalive packet of client 1, and the first bytes of another.
abbrev arrived : Buf
arrived = record init {
  base = b'K' ∷ 0 ∷ 0 ∷ 1 ∷ 0 ∷ 0 ∷ 0 ∷ 8 ∷ b'K' ∷ 0 ∷ [];
  tail = 10;
  size = 10;
}

arrived-IsReadable : IsReadable arrived
arrived-IsReadable = omega arith

-- A header that says that its packet has three bytes, and two rounds of reading behind it: a keepalive packet
-- arrives, and then the end of the data.
abbrev bad : Buf
bad = record init {
  base = b'i' ∷ 0 ∷ 0 ∷ 1 ∷ 0 ∷ 2 ∷ 0 ∷ 3 ∷ 5 ∷ 0 ∷ 0 ∷ 0 ∷ 0 ∷ 0 ∷ 0 ∷ 0 ∷ 0 ∷ 0 ∷ [];
  tail = 9;
  size = 18;
}

abbrev readable : Revents
readable = record { pollnval = false; pollout = false; pollin = true; pollhup = false }

abbrev two_reads : Rounds
two_reads = (readable, some (b'K' ∷ 0 ∷ 0 ∷ 1 ∷ 0 ∷ 0 ∷ 0 ∷ 8 ∷ [])) ∷ (readable, some []) ∷ []

-- Version 3.0, twenty seconds.
abbrev hello : Buf
hello = record init { base = 3 ∷ 0 ∷ 0 ∷ 20 ∷ []; tail = 4; size = 4 }

period-values : (period 0 ≡ 0) × (period 4 ≡ 10) × (period 20 ≡ 20)
period-values = (refl, refl, refl)

negotiated-hello : negotiated conn hello ≡ 20
unfolding dissect_hello_packet get count
negotiated-hello = refl

process_packet-Processed_example : Processed (process_packet now no_handlers conn arrived)
process_packet-Processed_example =
    process_packet-Processed now no_handlers conn arrived arrived-IsReadable

-- A command of client 1 with a sink on channel 1, and the connection of its client.
abbrev ps : State
ps = record { cid = 1; xid = 300 }

abbrev sink : Channel
sink = record {
  id = 1;
  socket = some transport;
  stream = none;
  plugged = false;
  on_read_eof = false;
  on_write_eof = false;
}

abbrev command : Trans
command = record {
  type = type_command;
  id = 300;
  major_sent = false;
  minor_sent = false;
  done = false;
  ps = ps;
  local_sink = sink ∷ [];
  local_source = [];
  deadline = never;
  chat_deadline = none;
  status_major = 0;
  status_minor = 0;
  exception = 0;
  nbytes_received = 0;
}

abbrev busy : Conn
busy = record conn { transactions = command ∷ [] }

busy-IsReceiving : IsReceiving busy 300 1 transport
unfolding find_transaction find_channel
busy-IsReceiving = record {
  trans = command;
  found = refl;
  running = refl;
  sink = sink;
  attached = refl;
  socket = refl;
  ordered = transport-CanSend.ordered;
  is_open = transport-CanSend.is_open;
}

-- A buffer that holds some bytes and no more.
abbrev holding : List ℕ → Buf
holding d = record init { base = d; tail = length d; size = length d }

holding-IsReadable : (d : List ℕ) → length d < 4294967296 → IsReadable (holding d)
holding-IsReadable d h = omega arith

holding-contents : (d : List ℕ) → contents (holding d) ≡ d
holding-contents d = take-all d (length d - 0) (omega arith)

abbrev pieces : List (List ℕ)
pieces = (b'h' ∷ b'i' ∷ []) ∷ (b'!' ∷ []) ∷ []

pieces-room : transport.xmit_queue.bytes + length (flat pieces) < 4294967296
unfolding sock_new
pieces-room = omega arith

process_packet-Delivered_example :
    Delivered busy 300 1 transport
      (flat pieces)
      (process_packet now no_handlers busy (holding (frames ps 1 pieces)))
process_packet-Delivered_example =
    process_packet-Delivered now no_handlers busy (holding (frames ps 1 pieces)) ps 1 transport
      pieces (omega arith) (omega arith) (omega arith) (omega arith, (omega arith, tt))
      (holding-IsReadable (frames ps 1 pieces) (omega arith))
      (holding-contents (frames ps 1 pieces)) refl busy-IsReceiving pieces-room

-- The same connection with a source that has "abc" on the other side.
abbrev abc : Iostream
abc = record {
  eof = false;
  substreams =
      record { has_ops = true; target = buffer (some (holding (b'a' ∷ b'b' ∷ b'c' ∷ []))) false }
      ∷ [];
}

abbrev work : Work
work = record {
  trans = command;
  transport = transport;
  channel = record sink { socket = none; stream = some abc };
}

abbrev no_callback : ReadEof
no_callback trans sock id = some (trans, sock)

transport-CanTake : CanTake transport
unfolding sock_new
transport-CanTake = record {
  ordered = transport-CanSend.ordered;
  is_open = refl;
  limit = omega arith;
}

abbrev abc-Sends : Sends no_callback work abc (forward now no_callback false work)
abc-Sends =
    forward-Sends now no_callback false work abc refl refl refl ((λ e. omega arith), tt)
      transport-CanTake

frames-bound :
    (ds : List (List ℕ)) → AllShort ds → length (frames ps 1 ds) ≤ 10 * length ds + length (flat ds)
frames-bound [] s = omega arith
frames-bound (d ∷ ds) s =
    omega
      (arith, frames-bound ds (s.1), length-append d (flat ds), length-append d (frames ps 1 ds))

abc-frames : stream abc-Sends.transport ≡ frames ps 1 abc-Sends.pieces
unfolding sock_new
abc-frames = abc-Sends.sent

flat-bound : length (flat abc-Sends.pieces) ≤ 3
flat-bound = omega (
  arith,
  ap length abc-Sends.kept,
  length-append (flat abc-Sends.pieces) (pending abc-Sends.left.substreams),
)

abbrev forwarded : List ℕ
forwarded = sent_bytes (forward now no_callback false work)

forwarded-stream : forwarded ≡ stream abc-Sends.transport
forwarded-stream = ap sent_bytes (
    abc-Sends.done
    ∙ forward_end-quiet no_callback (record work { transport = abc-Sends.transport }) abc-Sends.left
        refl)

forwarded-bound : length forwarded < 4294967296
forwarded-bound = omega (
  arith,
  ap length forwarded-stream,
  ap length abc-frames,
  frames-bound abc-Sends.pieces abc-Sends.short,
  flat-bound,
  AllFull-length abc-Sends.pieces abc-Sends.full,
)

transport-stream : stream transport ≡ []
unfolding sock_new
transport-stream = refl

transport-room : transport.xmit_queue.bytes + length (pending abc.substreams) < 4294967296
unfolding sock_new
transport-room = omega arith

forward-Delivered_example :
    Arrived abc busy 300 1 transport
      (forward now no_callback false work)
      (process_packet now no_handlers busy (holding forwarded))
forward-Delivered_example =
    forward-Delivered now now no_callback false work abc no_handlers busy (holding forwarded)
      transport refl refl refl refl ((λ e. omega arith), tt) transport-CanTake transport-stream
      (omega arith) (omega arith) (omega arith) (holding-IsReadable forwarded forwarded-bound)
      (holding-contents forwarded) refl busy-IsReceiving transport-room

-- The client's connection is cancelled, has worked on its transactions, and has lost its socket.
abbrev link : Link
link = record { conn = busy; is_open = true; keeps_done = true; done_transactions = [] }

busy-found : find_transaction link.conn.transactions 300 ≡ some command
unfolding find_transaction
busy-found = refl

cancel_transactions-Cancelled_example : Cancelled 18 300 (cancel_transactions link 18)
cancel_transactions-Cancelled_example =
    cancel_transactions-Cancelled link 18 300 command refl (omega arith) busy-found

abbrev hung_up : Events
hung_up i = (record { pollnval = true; pollout = false; pollin = false; pollhup = false }, none)

abbrev env : Env
env = record {
  now = now;
  handlers = no_handlers;
  read_eof = no_callback;
  send = λ trans. none;
  events = hung_up;
  again = false;
  errno = 5;
}

-- One transaction goes on, and another is finished.
abbrev finished : Trans
finished = record command { id = 301; done = true }

abbrev two : Link
two = record link { conn = record busy { transactions = command ∷ finished ∷ [] } }

two-AllWork : AllWork env two.conn.transactions two.conn.client_sock
unfolding transaction_doio doio_all channel_doio doio_polled doio_forward doio_eof take_recvbuf
    list_purge is_dead sock_new
two-AllWork = (_, _, refl, (_, _, refl, tt))

doio_rest-Sorted_example :
    (link' : Link) × (doio_rest env two ≡ some (true, link'))
    × (link'.is_open ≡ two.is_open)
    × Sorted two.keeps_done
        (results env two.conn.transactions two.conn.client_sock two-AllWork)
        two.done_transactions
        link'.conn.transactions
        link'.done_transactions
doio_rest-Sorted_example = doio_rest-Sorted env two two-AllWork

-- The socket of the connection has an entry in the array that poll calls invalid.
abbrev lost : Link
lost = record link { conn = record busy { client_sock = record transport { poll_data = some 0 } } }

abbrev pinfo : Pollinfo
pinfo = pollinfo_init now 4

lost-fails :
    doio_polled env.now env.events lost.conn.client_sock
    ≡ some (false, mark_dead (record transport { poll_data = none }))
unfolding doio_polled doio
lost-fails = refl

in_time : (Timeout.update pinfo.timeout command.deadline).0 ≡ true
unfolding Timeout.update pollinfo_init
in_time = refl

doio_failed-fault_example :
    (link' : Link) × (conn_doio env lost ≡ some (false, link'))
    × (link'.conn.transactions ≡ command ∷ [])
    × (conn_fill_poll env link' pinfo ≡ none)
doio_failed-fault_example =
    doio_failed-fault env env lost command [] (mark_dead (record transport { poll_data = none }))
      pinfo refl refl lost-fails in_time
