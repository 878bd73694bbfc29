-- ===== src/Connection/Link.antt =====
-- The life of a connection of library/connection.c: whether its socket is open, the transactions that are
-- finished, and how it processes what has been received.
use twopence.Prelude.{
  ℕ, zero, suc, Bool, true, false, not, ◌||◌, Option, none, some, List, [], ◌∷◌, ltb, ◌==◌,
  if◌then◌else◌,
}
use twopence.Buffer.{Buf, count, reset, compact, tailroom_max}
use twopence.Timeout.{Timeval, never}
use twopence.Socket.{Sock}
use twopence.Protocol.{State, max_packet, type_keepalive}
use twopence.Protocol.Build.{packet, build_simple_packet}
use twopence.Protocol.Dissect.{buffer_complete}
use twopence.Transaction.{Trans, set_error}
use twopence.Transaction.Doio.{xmit_built}
use twopence.Connection.{
  Conn, Handlers, abort, out_of_fuel, returned, process_packet, update_send_keepalive,
}

-- `struct twopence_connection`: `is_open` is whether `client_sock` is not NULL, and then the socket is that
-- of `conn`. `keeps_done` is whether the semantics has the client's `end_transaction`, which keeps
-- finished transactions; the server's are freed.
pub record Link : Type 0 where
  pub conn : Conn
  pub is_open : Bool
  pub keeps_done : Bool
  pub done_transactions : List Trans

-- `twopence_conn_new`
unfoldable pub conn_new : Bool → Sock → ℕ → Link
conn_new keeps_done sock client_id = record {
  conn = record {
    client_sock = sock;
    client_id = client_id;
    send_timeout = 0;
    send_deadline = never;
    recv_timeout = 0;
    recv_deadline = never;
    transactions = [];
  };
  is_open = true;
  keeps_done = keeps_done;
  done_transactions = [];
}

-- `twopence_conn_close` and `twopence_conn_is_closed`
unfoldable pub close : Link → Link
close link = record link { is_open = false }

unfoldable pub is_closed : Link → Bool
is_closed link = not link.is_open

-- `twopence_conn_add_transaction`, `twopence_conn_add_transaction_done` and
-- `twopence_conn_has_pending_transactions`
unfoldable pub add_transaction : Link → Trans → Link
add_transaction link trans = record link {
  conn = record link.conn { transactions = trans ∷ link.conn.transactions };
}

unfoldable pub add_transaction_done : Link → Trans → Link
add_transaction_done link trans = record link { done_transactions = trans ∷ link.done_transactions }

unfoldable pub has_pending_transactions : Link → Bool
has_pending_transactions link = elim link.conn.transactions [ [] ↦ false | t ∷ ts ↦ true ]

-- `twopence_conn_reap_transaction`: the transaction that is taken off the list, or NULL.
abbrev pub behind : Trans → Option (Trans × List Trans) → Option (Trans × List Trans)
behind rover none = none
behind rover (some (trans, left)) = some (trans, rover ∷ left)

unfoldable pub reap_list : List Trans → ℕ → Option (Trans × List Trans)
reap_list [] xid = none
reap_list (rover ∷ rest) xid =
    let later = reap_list rest xid in
    if xid == 0 || rover.id == xid then some (rover, rest) else behind rover later

unfoldable pub reap_transaction : Link → ℕ → Option (Trans × Link)
reap_transaction link xid = elim (reap_list link.done_transactions xid) [
  | none ↦ none
  | some (trans, left) ↦ some (trans, record link { done_transactions = left })
]

-- `twopence_conn_transaction_complete`: what becomes of the list of finished transactions.
abbrev pub complete : Bool → Trans → List Trans → List Trans
complete keeps_done trans finished = if keeps_done then trans ∷ finished else finished

-- `twopence_conn_cancel_transactions`: from the head of the list on.
unfoldable pub cancel_list : Bool → ℕ → List Trans → List Trans → List Trans
cancel_list keeps_done error [] finished = finished
cancel_list keeps_done error (trans ∷ rest) finished =
    cancel_list keeps_done error rest (complete keeps_done (set_error trans error) finished)

unfoldable pub cancel_transactions : Link → ℕ → Link
cancel_transactions link error = record link {
  conn = record link.conn { transactions = [] };
  done_transactions =
      cancel_list link.keeps_done error link.conn.transactions link.done_transactions;
}

-- `twopence_conn_send_keepalive` on an open connection: the result of the transmission is not looked at.
unfoldable pub send_keepalive : Timeval → Conn → Option Conn
send_keepalive now conn =
    let ps : State = record { cid = conn.client_id; xid = 0 } in
    elim (xmit_built now conn.client_sock (build_simple_packet (some ps) type_keepalive)) [
      | none ↦ none
      | some (ok, sock) ↦ some (update_send_keepalive (record conn { client_sock = sock }))
    ]

-- `twopence_conn_xmit_packet`: whether the result is not negative.
unfoldable pub xmit_packet : Timeval → Link → Buf → Option (Bool × Link)
xmit_packet now link bp =
    if not link.is_open
    then some (false, link)
    else elim (xmit_built now link.conn.client_sock (packet bp)) [
      | none ↦ none
      | some (ok, sock) ↦ some (ok, record link { conn = record link.conn { client_sock = sock } })
    ]

-- The loop of `twopence_conn_process_incoming`, on fuel: each round takes a packet at least. A call that
-- aborts is none, and so is the end of the fuel.
abbrev pub Processed : Type 0
Processed = Option (Bool × Conn × Buf)

unfoldable pub incoming_loop : ℕ → Timeval → Handlers → Conn → Buf → Processed
incoming_loop zero now h conn bp = none
incoming_loop (suc f) now h conn bp =
    if not (buffer_complete bp)
    then some (true, conn, bp)
    else elim (process_packet now h conn bp) [
      | abort ↦ none
      | out_of_fuel ↦ none
      | returned ok conn' bp' ↦
          if ok then incoming_loop f now h conn' bp' else some (false, conn', bp')
    ]

-- The buffer after it: reset when it is empty, and compacted when a packet might not fit any more. none is
-- the assertion of `reset`.
unfoldable pub make_room : Buf → Option Buf
make_room bp =
    if count bp == 0
    then reset bp
    else if ltb (tailroom_max bp) max_packet
    then some (compact bp)
    else some bp

-- `twopence_conn_process_incoming`: the buffer is that of the socket.
abbrev pub stored : Conn → Option Buf → Option (Bool × Conn)
stored conn none = none
stored conn (some bp) =
    some (true, record conn { client_sock = record conn.client_sock { recv_buf = some bp } })

abbrev pub incoming_done : Processed → Option (Bool × Conn)
incoming_done none = none
incoming_done (some (false, conn, bp)) =
    some (false, record conn { client_sock = record conn.client_sock { recv_buf = some bp } })
incoming_done (some (true, conn, bp)) = stored conn (make_room bp)

unfoldable pub process_incoming : Timeval → Handlers → Conn → Option (Bool × Conn)
process_incoming now h conn = elim conn.client_sock.recv_buf [
  | none ↦ some (true, conn)
  | some bp ↦ incoming_done (incoming_loop (suc (count bp)) now h conn bp)
]
