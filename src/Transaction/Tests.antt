-- ===== src/Transaction/Tests.antt =====
-- Transactions of library/transaction.c on concrete packets, and the theorems applied.
use twopence.Prelude.{ℕ, ◌≡◌, refl, true, false, none, some, [], ◌∷◌, List, replicate, arith}
use twopence.Buffer.{Buf, init}
use twopence.Buffer.Bounds.{IsReadable}
use twopence.Timeout.{Timeval, never}
use twopence.Queue.Order.{IsOrdered}
use twopence.Socket.{Sock, read_write, sock_new}
use twopence.Protocol.{State, type_command}
use twopence.Transaction.{Channel, Trans, list_close, find_channel, fail}
use twopence.Transaction.Receive.{recv_data}
use twopence.Transaction.Status.{CanSend, Failed, fail-Failed}
use twopence.Transaction.Routing.{Routed, recv_data-Routed}
use twopence.Iostream.{Iostream}
use twopence.Iostream.Parts.{buffer}
use twopence.Transaction.Forward.{Work, ReadEof, forward}
use twopence.Transaction.Piece.{CanTake}
use twopence.Transaction.Forwarding.{Sends, forward-Sends}

abbrev now : Timeval
now = record { sec = 100; usec = 0 }

abbrev ps : State
ps = record { cid = 1; xid = 300 }

abbrev transport : Sock
transport = sock_new 3 (some 9 ∷ []) read_write

transport-IsOrdered : IsOrdered transport.xmit_queue
unfolding sock_new
transport-IsOrdered = record { numbered = refl; counted = refl; narrow = omega arith }

transport-CanSend : CanSend transport
unfolding sock_new
transport-CanSend = record { ordered = transport-IsOrdered; is_open = refl; room = omega arith }

transport-fields : (transport.write_eof ≡ 0) × (transport.xmit_queue.bytes ≡ 0)
unfolding sock_new
transport-fields = (refl, refl)

-- Two sinks with sockets, for the standard output and error.
abbrev sink : ℕ → Channel
sink id = record {
  id = id;
  socket = some transport;
  stream = none;
  plugged = false;
  on_read_eof = false;
  on_write_eof = false;
}

abbrev command : Trans
command = record {
  type = type_command;
  id = 300;
  major_sent = false;
  minor_sent = false;
  done = false;
  ps = ps;
  local_sink = sink 1 ∷ sink 2 ∷ [];
  local_source = [];
  deadline = never;
  chat_deadline = none;
  status_major = 0;
  status_minor = 0;
  exception = 0;
  nbytes_received = 0;
}

-- Channel 2, "hi"
abbrev data_payload : Buf
data_payload = record init { base = 0 ∷ 2 ∷ b'h' ∷ b'i' ∷ []; tail = 4; size = 4 }

data_payload-IsReadable : IsReadable data_payload
data_payload-IsReadable = omega arith

list_close-sinks :
    (list_close command.local_sink 1 ≡ sink 2 ∷ []) × (list_close command.local_sink 65535 ≡ [])
unfolding list_close
list_close-sinks = (refl, refl)

fail-Failed_example : Failed command transport 71 (fail now command transport 71)
fail-Failed_example = fail-Failed now command transport 71 transport-CanSend

found_2 : find_channel command.local_sink 2 ≡ some (sink 2)
unfolding find_channel
found_2 = refl

-- A stub for the bytes of a new block.
abbrev fresh : ℕ → List ℕ
fresh n = replicate n 0

recv_data-Routed_example :
    (trans' : Trans) × (recv_data fresh now command data_payload ≡ some trans')
    × Routed command 2 transport (b'h' ∷ b'i' ∷ []) trans'
recv_data-Routed_example =
    recv_data-Routed fresh now command data_payload 2 (b'h' ∷ b'i' ∷ []) (sink 2) transport
      data_payload-IsReadable (omega arith) refl found_2 refl transport-IsOrdered
      (transport-fields.0) (omega (arith, transport-fields.1))

-- A source that has "abc", on channel 1, and a callback that does nothing.
abbrev abc : Iostream
abc = record {
  eof = false;
  substreams =
      record {
        has_ops = true;
        target =
            buffer (some (record init { base = b'a' ∷ b'b' ∷ b'c' ∷ []; tail = 3; size = 3 }))
              false;
      }
      ∷ [];
}

abbrev work : Work
work = record {
  trans = command;
  transport = transport;
  channel = record {
    id = 1;
    socket = none;
    stream = some abc;
    plugged = false;
    on_read_eof = true;
    on_write_eof = false;
  };
}

abbrev no_callback : ReadEof
no_callback trans sock id = some (trans, sock)

transport-CanTake : CanTake transport
unfolding sock_new
transport-CanTake = record { ordered = transport-IsOrdered; is_open = refl; limit = omega arith }

forward-Sends_example : Sends no_callback work abc (forward now no_callback false work)
forward-Sends_example =
    forward-Sends now no_callback false work abc refl refl refl ((λ e. omega arith), tt)
      transport-CanTake
