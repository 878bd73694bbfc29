-- ===== src/Transaction.antt =====
-- library/transaction.c: the state of a transaction, its local channels, and the status packets that it
-- sends; `Receive` has the packets that it receives, and `Channels` the work on its channels. The
-- transport socket that transactions share is an argument and a result. none is a failed assertion, or
-- `abort`.
pub mod Status
pub mod Receive
pub mod Channels
pub mod Forward
pub mod Doio
pub mod Framed
pub mod Piece
pub mod Forwarding
pub mod Routing
mod Tests
use twopence.Prelude.{
  ℕ, ◌+◌, Bool, true, false, not, ◌&&◌, ◌||◌, Option, none, some, List, [], ◌∷◌, ◌++◌, ◌==◌,
  if◌then◌else◌, add_u32,
}
use twopence.Buffer.{Buf, count, head_mem}
use twopence.Buffer.Contents.{contents}
use twopence.Timeout.{Timeval, never}
use twopence.Iostream.{Iostream}
use twopence.Socket.{Sock, queue_xmit, is_dead, shutdown_write}
use twopence.Protocol.{
  State, Header, type_chan_data, type_chan_eof, type_timeout, push_header_ps, command_buffer_new,
}
use twopence.Protocol.Build.{Built, packet, null, aborted, build_major_packet, build_minor_packet}
use twopence.Protocol.Dissect.{decode_u16}

-- `struct twopence_trans_channel`, with a socket or an iostream. The flags tell which of the callbacks
-- for the end of the data are set.
pub record Channel : Type 0 where
  pub id : ℕ
  pub socket : Option Sock
  pub stream : Option Iostream
  pub plugged : Bool
  pub on_read_eof : Bool
  pub on_write_eof : Bool

-- `struct twopence_transaction`, with what the client keeps: its deadlines, the status that it has
-- received, and the error, a negative number whose sign is left out.
pub record Trans : Type 0 where
  pub type : ℕ
  pub id : ℕ
  pub major_sent : Bool
  pub minor_sent : Bool
  pub done : Bool
  pub ps : State
  pub local_sink : List Channel
  pub local_source : List Channel
  pub deadline : Timeval
  pub chat_deadline : Option Timeval
  pub status_major : ℕ
  pub status_minor : ℕ
  pub exception : ℕ
  pub nbytes_received : ℕ

abbrev pub channel_id_all : ℕ
channel_id_all = 65535

-- `twopence_transaction_new`
unfoldable pub trans_new : ℕ → State → Trans
trans_new type ps = record {
  type = type;
  id = ps.xid;
  major_sent = false;
  minor_sent = false;
  done = false;
  ps = ps;
  local_sink = [];
  local_source = [];
  deadline = never;
  chat_deadline = none;
  status_major = 0;
  status_minor = 0;
  exception = 0;
  nbytes_received = 0;
}

-- `twopence_transaction_channel_list_purge`
abbrev pub channel_is_dead : Channel → Bool
channel_is_dead channel = elim channel.socket [ none ↦ false | some sock ↦ is_dead sock ]

unfoldable pub list_purge : List Channel → List Channel
list_purge [] = []
list_purge (channel ∷ list) =
    if channel_is_dead channel then list_purge list else channel ∷ list_purge list

-- `twopence_transaction_channel_list_close`
unfoldable pub list_close : List Channel → ℕ → List Channel
list_close [] id = []
list_close (channel ∷ list) id =
    if id == channel_id_all || channel.id == id
    then list_close list id
    else channel ∷ list_close list id

-- `twopence_transaction_close_sink` and `twopence_transaction_close_source`
unfoldable pub close_sink : Trans → ℕ → Trans
unfolding list_close
close_sink trans id = record trans { local_sink = list_close trans.local_sink id }

unfoldable pub close_source : Trans → ℕ → Trans
unfolding list_close
close_source trans id = record trans { local_source = list_close trans.local_source id }

-- `twopence_transaction_set_error`
unfoldable pub set_error : Trans → ℕ → Trans
set_error trans rc = record trans { exception = rc; done = true }

-- `twopence_transaction_send_client`: a NULL packet is not accessible memory.
unfoldable pub send_client : Timeval → Sock → Built → Option Sock
send_client now sock (packet bp) = some (queue_xmit false now sock bp).1
send_client now sock null = none
send_client now sock aborted = none

abbrev pub sent : Trans → Option Sock → Option (Trans × Sock)
sent trans none = none
sent trans (some sock) = some (trans, sock)

-- `twopence_transaction_send_major` and `twopence_transaction_send_minor`
unfoldable pub send_major : Timeval → Trans → Sock → ℕ → Option (Trans × Sock)
send_major now trans sock code =
    if trans.major_sent
    then none
    else sent (record trans { major_sent = true })
        (send_client now sock (build_major_packet trans.ps code))

unfoldable pub send_minor : Timeval → Trans → Sock → ℕ → Option (Trans × Sock)
send_minor now trans sock code =
    if trans.minor_sent
    then none
    else sent (record trans { minor_sent = true })
        (send_client now sock (build_minor_packet trans.ps code))

-- `twopence_transaction_fail`
unfoldable pub fail : Timeval → Trans → Sock → ℕ → Option (Trans × Sock)
fail now trans sock code =
    let trans' = record trans { done = true } in
    if not trans.major_sent
    then send_major now trans' sock code
    else if not trans.minor_sent
    then send_minor now trans' sock code
    else none

-- `twopence_transaction_fail2`
abbrev pub then_minor : Timeval → ℕ → Option (Trans × Sock) → Option (Trans × Sock)
then_minor now minor none = none
then_minor now minor (some (trans, sock)) = send_minor now trans sock minor

abbrev pub finished : Option (Trans × Sock) → Option (Trans × Sock)
finished none = none
finished (some (trans, sock)) = some (record trans { done = true }, sock)

unfoldable pub fail2 : Timeval → Trans → Sock → ℕ → ℕ → Option (Trans × Sock)
fail2 now trans sock major minor = finished (then_minor now minor (send_major now trans sock major))

-- `twopence_transaction_send_timeout`
abbrev pub timeout_packet : Trans → Built
timeout_packet trans = elim (push_header_ps command_buffer_new trans.ps type_timeout) [
  | none ↦ aborted
  | some bp ↦ packet bp
]

unfoldable pub send_timeout : Timeval → Trans → Sock → Option (Trans × Sock)
send_timeout now trans sock =
    sent (record trans { done = true }) (send_client now sock (timeout_packet trans))

-- `twopence_transaction_find_sink`
unfoldable pub find_channel : List Channel → ℕ → Option Channel
find_channel [] id = none
find_channel (channel ∷ list) id = if channel.id == id then some channel else find_channel list id

-- The channel that `find_sink` returns is changed in place.
unfoldable pub put_channel : List Channel → ℕ → Channel → List Channel
put_channel [] id new = []
put_channel (channel ∷ list) id new =
    if channel.id == id then new ∷ list else channel ∷ put_channel list id new
