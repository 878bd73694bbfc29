-- ===== src/Pipe/Tests.antt =====
-- The client of library/pipe.c on concrete connections, and the theorems applied.
use twopence.Prelude.{
  ℕ, Option, ◌≡◌, refl, true, false, none, some, List, [], ◌∷◌, replicate, take, drop, arith,
}
use twopence.Buffer
use twopence.Buffer.{Buf, init}
use twopence.Timeout.{Timeval, never}
use twopence.Timer.{Timers}
use twopence.Socket.{
  Sock, read_write, sock_new, xmit, flush_loop, send_all, send_buffer, enqueue, is_dead,
}
use twopence.Socket
use twopence.Protocol.{type_command, raise_header, command_buffer_new}
use twopence.Protocol.Build.{build_hello_packet}
use twopence.Transaction.{Trans}
use twopence.Transaction.Doio.{xmit_built}
use twopence.Transaction.Status.{CanSend}
use twopence.Connection.{Conn, find_transaction, process_hello}
use twopence.Connection.Keepalive.{
  Negotiated, negotiated, hello_body, hello_bytes, process_hello_lem,
}
use twopence.Connection.Link.{Link, is_closed, reap_transaction, reap_list}
use twopence.Connection.Doio.{transport_error}
use twopence.Connection.Pool.{pool_poll}
use twopence.Pipe.{Pipe, ok, failed, seconds, handshake}
use twopence.Pipe.Run.{World, Status, ended, run, pipe_doio}
use twopence.Pipe.Handshake.{Shorter, handshake-Greets}
use twopence.Pipe.Waiting.{IsWaiting, stays, run_lost}

abbrev now : Timeval
now = record { sec = 100; usec = 0 }

abbrev timers : Timers
timers = record { next_id = 1; linked = []; held = [] }

-- A socket that takes what it is given.
abbrev fresh_sock : Sock
fresh_sock = sock_new 3 (some 100 ∷ []) read_write

fresh_sock-CanSend : CanSend fresh_sock
unfolding sock_new
fresh_sock-CanSend = record {
  ordered = record { numbered = refl; counted = refl; narrow = omega arith };
  is_open = refl;
  room = omega arith;
}

-- A client that asks for keepalives of twenty seconds.
abbrev unconnected : Pipe
unconnected = record {
  keepalive = seconds 20;
  connection = none;
  pooled = false;
  ps = record { cid = 0; xid = 0 };
  current = none;
  timers = timers;
}

sent :
    (sock1 : Sock) × (xmit_built now fresh_sock (build_hello_packet 0 20) ≡ some (true, sock1))
    × (sock1.recv_buf ≡ none)
    × (sock1.read_eof ≡ false)
unfolding xmit sock_new flush_loop send_all send_buffer enqueue Socket.write build_hello_packet
    raise_header command_buffer_new xmit_built Buffer.append Socket.xmit_flushed Buffer.advance_head
sent = (_, refl, refl, refl)

-- The reply of the server, in two pieces, and that of a server that waits for twelve seconds.
abbrev reply : List (Option (List ℕ))
reply = some (take 3 (hello_bytes 1 20)) ∷ some (drop 3 (hello_bytes 1 20)) ∷ []

abbrev short_reply : List (Option (List ℕ))
short_reply = some (take 3 (hello_bytes 1 12)) ∷ some (drop 3 (hello_bytes 1 12)) ∷ []

handshake-Greets_example :
    (sock' : Sock) × (period : ℕ) × (handshake now fresh_sock short_reply 20
      ≡ some (record { rc = ok 0; sock = sock'; client_id = 1; line_timeout = period }))
    × Shorter 20 12 period
handshake-Greets_example =
    handshake-Greets now fresh_sock (sent.0) short_reply 20 1 12 (sent.1) (sent.2) (sent.3)
      (omega arith) (omega arith) refl

-- A server that would wait for sixty seconds, and what it receives.
abbrev server : Conn
server = record {
  client_sock = fresh_sock;
  client_id = 1;
  send_timeout = 15;
  send_deadline = never;
  recv_timeout = 60;
  recv_deadline = never;
  transactions = [];
}

abbrev hello : Buf
hello = record init { base = hello_body 20; tail = 4; size = 4 }

abbrev greeted : Negotiated now server (negotiated server hello) (process_hello now server hello)
greeted = process_hello_lem now server hello fresh_sock-CanSend

-- A command that is pending on a connection, which has been closed since.
abbrev command : Trans
command = record {
  type = type_command;
  id = 7;
  major_sent = false;
  minor_sent = false;
  done = false;
  ps = record { cid = 1; xid = 7 };
  local_sink = [];
  local_source = [];
  deadline = never;
  chat_deadline = none;
  status_major = 0;
  status_minor = 0;
  exception = 0;
  nbytes_received = 0;
}

abbrev link : Link
link = record {
  conn = record server { transactions = command ∷ [] };
  is_open = false;
  keeps_done = true;
  done_transactions = [];
}

abbrev closed : Pipe
closed = record unconnected { connection = some link }

abbrev world : World
world = record {
  now = now;
  fresh = λ n. replicate n 0;
  events =
      λ i. (record { pollnval = false; pollout = false; pollin = false; pollhup = false }, none);
  again = false;
  errno = 5;
}

closed-IsWaiting : IsWaiting closed 7
unfolding reap_transaction reap_list
closed-IsWaiting = record { link = link; connected = refl; unfinished = refl }

closed_doio : pipe_doio world closed ≡ some (false, closed)
unfolding pipe_doio pool_poll is_closed
closed_doio = refl

found_7 : find_transaction link.conn.transactions 7 ≡ some command
unfolding find_transaction
found_7 = refl

abbrev zero_status : Status
zero_status = record { pid = 0; major = 0; minor = 0 }

run_lost_example :
    (status' : Status) × (left : Pipe) × (run (world ∷ []) closed 7 zero_status
      ≡ ended (failed transport_error) status' left)
    × (status'.pid ≡ 7)
run_lost_example =
    run_lost [] [] world closed closed closed link 7 zero_status command (stays refl)
      closed-IsWaiting closed_doio refl refl (omega arith) found_7
