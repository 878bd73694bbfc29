-- ===== src/Connection.antt =====
-- library/connection.c: a connection with its socket, its keepalive times and its transactions, and how
-- it processes the packets in its receive buffer. The time is an argument. The callbacks of the
-- semantics and of the transactions are given in `Handlers`.
pub mod Packets
pub mod Keepalive
pub mod Negotiation
pub mod Round
pub mod Delivery
pub mod Link
pub mod Cancel
pub mod Stuck
pub mod Pending
pub mod Doio
pub mod Pool
mod Tests
use twopence.Prelude.{
  ℕ, zero, suc, ◌+◌, ◌*◌, ◌/◌, Bool, true, false, not, ◌&&◌, ◌||◌, Option, none, some, List, [],
  ◌∷◌, ◌++◌, ltb, ◌==◌, if◌then◌else◌,
}
use twopence.Buffer.{Buf, count, reset, compact, tailroom_max}
use twopence.Timeout.{Timeval, never}
use twopence.Socket.{Sock, queue_xmit, enable_xmit_ts}
use twopence.Protocol.{
  State, Header, type_hello, type_keepalive, type_chan_data, type_chan_eof, type_intr,
}
use twopence.Protocol.Build.{Built, packet, null, aborted, build_hello_packet}
use twopence.Protocol.Dissect.{buffer_complete, dissect_ps, dissect_hello_packet}
use twopence.Transaction.{Trans, trans_new, send_major, send_client}
use twopence.Transaction.Receive.{recv_packet}

-- `struct twopence_connection` with an open socket.
pub record Conn : Type 0 where
  pub client_sock : Sock
  pub client_id : ℕ
  pub send_timeout : ℕ
  pub send_deadline : Timeval
  pub recv_timeout : ℕ
  pub recv_deadline : Timeval
  pub transactions : List Trans

-- What is called back: `process_request` of the semantics, the `recv` handler of a transaction, and
-- the callback for the end of the data of a channel; and the content of a block as malloc hands it out.
pub record Handlers : Type 0 where
  pub fresh : ℕ → List ℕ
  pub process_request : Option (Trans → Sock → Buf → Bool × Trans × Sock)
  pub recv : Trans → Option (Trans → Sock → Header → Buf → Option (Trans × Sock))
  pub eof : Trans → ℕ → Trans

abbrev pub default_keepalive : ℕ
default_keepalive = 60

-- Some seconds later.
abbrev pub later : Timeval → ℕ → Timeval
later tv sec = record tv { sec = tv.sec + sec }

-- `twopence_conn_update_send_keepalive`. `get_xmit_ts` writes the deadline whenever time stamps are
-- enabled, and returns whether its seconds are not 0.
unfoldable pub update_send_keepalive : Conn → Conn
update_send_keepalive conn =
    let sock = conn.client_sock in
    let conn' = record conn { send_deadline = sock.ts_when } in
    if conn.send_timeout == 0
    then conn
    else if not sock.ts_enabled
    then conn
    else if sock.ts_when.sec == 0
    then conn'
    else record conn { send_deadline = later sock.ts_when conn.send_timeout }

-- `twopence_conn_update_recv_keepalive`
unfoldable pub update_recv_keepalive : Timeval → Conn → Conn
update_recv_keepalive now conn =
    if conn.recv_timeout == 0
    then conn
    else record conn { recv_deadline = later now conn.recv_timeout }

-- `twopence_conn_set_keepalive`: none is a negative number.
abbrev pub keepalive_period : Option ℕ → ℕ
keepalive_period none = default_keepalive
keepalive_period (some k) = if ltb k 10 then 10 else k

abbrev pub disabled : Conn → Conn
disabled conn = record conn {
  send_timeout = 0;
  send_deadline = never;
  recv_timeout = 0;
  recv_deadline = never;
}

abbrev pub enabled : Timeval → Conn → ℕ → Conn
enabled now conn k = update_recv_keepalive now (
    update_send_keepalive (record conn {
      send_timeout = k / 4;
      client_sock = enable_xmit_ts conn.client_sock;
      recv_timeout = k;
    }))

unfoldable pub set_keepalive : Timeval → Conn → Option ℕ → Conn
set_keepalive now conn none = enabled now conn (keepalive_period none)
set_keepalive now conn (some k) =
    if k == 0 then disabled conn else enabled now conn (keepalive_period (some k))

-- `twopence_conn_process_hello`: the keepalive that the client asks for, and the smaller one.
abbrev pub his_keepalive : Option ((ℕ × ℕ × ℕ) × Buf) → ℕ
his_keepalive none = 0
his_keepalive (some ((major, minor, keepalive), rest)) =
    if keepalive == 65535 then default_keepalive else keepalive

abbrev pub my_keepalive : ℕ → ℕ → ℕ
my_keepalive his mine = if ltb his mine then his else mine

abbrev pub replied : Conn → Option Sock → Option Conn
replied conn none = none
replied conn (some sock) = some (record conn { client_sock = sock })

unfoldable pub process_hello : Timeval → Conn → Buf → Option Conn
process_hello now conn payload =
    let k = my_keepalive (his_keepalive (dissect_hello_packet payload)) conn.recv_timeout in
    let conn' = set_keepalive now conn (some k) in
    replied conn' (send_client now conn'.client_sock (build_hello_packet conn.client_id k))

-- `twopence_conn_find_transaction`, and the change of the transaction in place.
unfoldable pub find_transaction : List Trans → ℕ → Option Trans
find_transaction [] xid = none
find_transaction (trans ∷ list) xid =
    if trans.id == xid then some trans else find_transaction list xid

unfoldable pub put_transaction : List Trans → ℕ → Trans → List Trans
put_transaction [] xid new = []
put_transaction (trans ∷ list) xid new =
    if trans.id == xid then new ∷ list else trans ∷ put_transaction list xid new

-- `twopence_conn_process_request`; its result is not looked at. A refused request is answered with
-- the major status EPROTO, a finished one is freed.
abbrev pub requested : Timeval → Conn → Bool × Trans × Sock → Option Conn
requested now conn (true, trans, sock) =
    let conn' = record conn { client_sock = sock } in
    if trans.done
    then some conn'
    else some (record conn' { transactions = trans ∷ conn.transactions })
requested now conn (false, trans, sock) = elim (send_major now trans sock 71) [
  | none ↦ none
  | some (trans', sock') ↦ some (record conn { client_sock = sock' })
]

unfoldable pub process_request : Timeval → Handlers → Conn → Header → Buf → State → Option Conn
process_request now h conn hdr payload ps = elim h.process_request [
  | none ↦ some conn
  | some f ↦ requested now conn (f (trans_new hdr.type ps) conn.client_sock payload)
]

-- The body of the loop of `twopence_conn_process_packet` behind the header.
abbrev pub received : Conn → ℕ → Option (Trans × Sock) → Option Conn
received conn xid none = none
received conn xid (some (trans, sock)) =
    some (record conn {
      client_sock = sock;
      transactions = put_transaction conn.transactions xid trans;
    })

abbrev pub is_late : ℕ → Bool
is_late type = type == type_chan_data || type == type_chan_eof || type == type_intr

unfoldable pub process_one : Timeval → Handlers → Conn → Header → Buf → State → Option Conn
process_one now h conn hdr payload ps =
    let conn' = update_recv_keepalive now conn in
    if hdr.type == type_hello && ps.cid == 0
    then process_hello now conn payload
    else if not (conn.client_id == ps.cid)
    then some conn
    else if hdr.type == type_keepalive
    then some conn'
    else elim (find_transaction conn'.transactions ps.xid) [
      | some trans ↦
          received conn' ps.xid
            (recv_packet h.fresh now h.eof (h.recv trans) trans conn'.client_sock hdr payload)
      | none ↦ if is_late hdr.type then some conn' else process_request now h conn' hdr payload ps
    ]

-- How the loop ends: a callee aborts, the fuel ends, or it returns.
pub data Outcome : Type 0 where
  abort out_of_fuel : Outcome
  returned : Bool → Conn → Buf → Outcome

-- `twopence_conn_process_packet`, on fuel: a round takes at least the eight bytes of a header.
unfoldable pub process_loop : ℕ → Timeval → Handlers → Conn → Buf → Outcome
process_loop zero now h conn bp = out_of_fuel
process_loop (suc f) now h conn bp =
    if not (buffer_complete bp) then returned true conn bp else elim (dissect_ps bp).0 [
      | none ↦ returned false conn (dissect_ps bp).1
      | some (hdr, payload, ps) ↦ elim (process_one now h conn hdr payload ps) [
        | none ↦ abort
        | some conn' ↦ process_loop f now h conn' (dissect_ps bp).1
      ]
    ]

unfoldable pub process_packet : Timeval → Handlers → Conn → Buf → Outcome
process_packet now h conn bp = process_loop (suc (count bp)) now h conn bp
