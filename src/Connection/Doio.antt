-- ===== src/Connection/Doio.antt =====
-- How library/connection.c works on a connection: what it asks poll for, and what it does after a poll.
use twopence.Prelude.{
  ℕ, ◌-◌, Bool, true, false, not, ◌&&◌, Option, none, some, List, [], ◌∷◌, ◌==◌, if◌then◌else◌,
}
use twopence.Timeout
use twopence.Timeout.{Timeval, Timeout, Pollinfo, pollinfo_init}
use twopence.Socket.{
  Sock, is_dead, mark_dead, prepare_poll, fill_poll, post_recvbuf_if_needed, xmit_queue_bytes,
}
use twopence.Socket.Doio.{Events, doio_polled}
use twopence.Protocol.{max_packet}
use twopence.Transaction.{Trans, set_error}
use twopence.Transaction.Forward.{ReadEof}
use twopence.Transaction.Doio.{Filled, Send, transaction_fill_poll, transaction_doio}
use twopence.Connection.{Conn, Handlers, update_send_keepalive}
use twopence.Connection.Link.{
  Link, close, cancel_transactions, complete, send_keepalive, process_incoming,
}

-- What the functions of this file are given: the time, the callbacks, what poll reports, whether a failed
-- read says EAGAIN, and `errno` of the other calls that fail.
pub record Env : Type 0 where
  pub now : Timeval
  pub handlers : Handlers
  pub read_eof : ReadEof
  pub send : Trans → Send
  pub events : Events
  pub again : Bool
  pub errno : ℕ

-- The numbers of the errors, without their sign.
abbrev pub command_timeout_error : ℕ
command_timeout_error = 6

abbrev pub transport_error : ℕ
transport_error = 18

-- The transactions in `twopence_conn_fill_poll`. Where the socket of the connection has been closed, theirs
-- is freed memory: none is the access to it, or a failed assertion.
pub record Polls : Type 0 where
  pub transactions : List Trans
  pub sock : Sock
  pub pinfo : Pollinfo

abbrev pub timed : Filled → Trans
timed f = if f.in_time then f.trans else set_error f.trans command_timeout_error

abbrev pub first : Trans → Option Polls → Option Polls
first trans none = none
first trans (some p) = some (record p { transactions = trans ∷ p.transactions })

unfoldable pub poll_transactions : Env → Bool → List Trans → Sock → Pollinfo → Option Polls
poll_transactions env is_open [] sock pinfo =
    some (record { transactions = []; sock = sock; pinfo = pinfo })
poll_transactions env is_open (trans ∷ rest) sock pinfo =
    elim (transaction_fill_poll env.now env.read_eof env.again trans sock pinfo) [
      | none ↦ none
      | some f ↦
          let later = poll_transactions env is_open rest f.transport f.pinfo in
          if not is_open && f.in_time then none else first (timed f) later
    ]

-- The keepalive timers of `twopence_conn_fill_poll`. A keepalive that is due on a closed connection is an
-- access through NULL.
abbrev pub updated : Pollinfo → Timeval → Bool × Pollinfo
updated pinfo deadline =
    let (in_time, tmo) = Timeout.update pinfo.timeout deadline in
    (in_time, record pinfo { timeout = tmo })

abbrev pub kept_alive : Link → Pollinfo → Option Conn → Option (Link × Pollinfo)
kept_alive link pinfo none = none
kept_alive link pinfo (some conn) =
    some (record link { conn = conn }, (updated pinfo conn.send_deadline).1)

unfoldable pub poll_send_keepalive : Env → Link → Pollinfo → Option (Link × Pollinfo)
poll_send_keepalive env link pinfo =
    let (in_time, pinfo') = updated pinfo link.conn.send_deadline in
    if in_time
    then some (link, pinfo')
    else if not link.is_open
    then none
    else kept_alive link pinfo' (send_keepalive env.now link.conn)

unfoldable pub poll_recv_keepalive : ℕ → Link → Pollinfo → ℕ × Link × Pollinfo
poll_recv_keepalive before link pinfo =
    let (in_time, pinfo') = updated pinfo link.conn.recv_deadline in
    if in_time then (pinfo'.num_fds - before, link, pinfo') else (0, close link, pinfo')

-- The socket in `twopence_conn_fill_poll`.
unfoldable pub poll_socket : Link → Pollinfo → Link × Pollinfo
poll_socket link pinfo =
    let sock = (post_recvbuf_if_needed (prepare_poll link.conn.client_sock) max_packet).1 in
    let (added, sock', pinfo') = fill_poll sock pinfo in
    if link.is_open
    then (record link { conn = record link.conn { client_sock = sock' } }, pinfo')
    else (link, pinfo)

abbrev pub then_recv : ℕ → Option (Link × Pollinfo) → Option (ℕ × Link × Pollinfo)
then_recv before none = none
then_recv before (some (link, pinfo)) = some (poll_recv_keepalive before link pinfo)

abbrev pub then_socket : Env → ℕ → Link → Option Polls → Option (ℕ × Link × Pollinfo)
then_socket env before link none = none
then_socket env before link (some p) =
    let link' = record link {
      conn = record link.conn { client_sock = p.sock; transactions = p.transactions };
    } in
    let (link2, pinfo) = poll_socket link' p.pinfo in
    then_recv before (poll_send_keepalive env link2 pinfo)

-- `twopence_conn_fill_poll`: the number of entries that have been added.
unfoldable pub conn_fill_poll : Env → Link → Pollinfo → Option (ℕ × Link × Pollinfo)
conn_fill_poll env link pinfo =
    if link.is_open && is_dead link.conn.client_sock
    then some (0, close link, pinfo)
    else then_socket env pinfo.num_fds link
        (poll_transactions env link.is_open link.conn.transactions link.conn.client_sock pinfo)

-- The loop of `twopence_conn_doio` over the transactions: those that are pending, and those that are
-- finished, in front of the ones that were.
pub record Worked : Type 0 where
  pub pending : List Trans
  pub sock : Sock
  pub finished : List Trans

abbrev pub still_pending : Trans → Option Worked → Option Worked
still_pending trans none = none
still_pending trans (some w) = some (record w { pending = trans ∷ w.pending })

unfoldable pub doio_transactions : Env → Bool → List Trans → Sock → List Trans → Option Worked
doio_transactions env keeps [] sock finished =
    some (record { pending = []; sock = sock; finished = finished })
doio_transactions env keeps (trans ∷ rest) sock finished =
    elim (transaction_doio env.now env.events env.read_eof env.errno (env.send trans) trans sock) [
      | none ↦ none
      | some (trans', sock') ↦
          let goes_on = doio_transactions env keeps rest sock' finished in
          let is_done = doio_transactions env keeps rest sock' (complete keeps trans' finished) in
          if trans'.done then is_done else still_pending trans' goes_on
    ]

-- The end of `twopence_conn_doio`.
abbrev pub worked : Link → Option Worked → Option (Bool × Link)
worked link none = none
worked link (some w) =
    let conn = record link.conn { client_sock = w.sock; transactions = w.pending } in
    some (true, record link { conn = update_send_keepalive conn; done_transactions = w.finished })

unfoldable pub doio_rest : Env → Link → Option (Bool × Link)
doio_rest env link = worked link (
    doio_transactions env link.keeps_done link.conn.transactions link.conn.client_sock
      link.done_transactions)

-- What becomes of a socket whose peer has shut down its side.
abbrev pub drained : Sock → Sock
drained sock = if sock.read_eof && xmit_queue_bytes sock == 0 then mark_dead sock else sock

-- `exit(1)` after a packet that is not valid is none too.
abbrev pub doio_received : Env → Link → Option (Bool × Conn) → Option (Bool × Link)
doio_received env link none = none
doio_received env link (some (false, conn)) = none
doio_received env link (some (true, conn)) =
    let link' = record link { conn = record conn { client_sock = drained conn.client_sock } } in
    if is_dead link'.conn.client_sock
    then some (true, close (cancel_transactions link' transport_error))
    else doio_rest env link'

abbrev pub doio_socket : Env → Link → Option (Bool × Sock) → Option (Bool × Link)
doio_socket env link none = none
doio_socket env link (some (false, sock)) =
    some (false, close (record link { conn = record link.conn { client_sock = sock } }))
doio_socket env link (some (true, sock)) =
    doio_received env link
      (process_incoming env.now env.handlers (record link.conn { client_sock = sock }))

-- `twopence_conn_doio`: whether the result is 0; else it is TWOPENCE_TRANSPORT_ERROR. The transactions of a
-- closed connection would use freed memory.
abbrev pub closed_doio : Link → Option (Bool × Link)
closed_doio link = elim link.conn.transactions [ [] ↦ some (true, link) | t ∷ ts ↦ none ]

unfoldable pub conn_doio : Env → Link → Option (Bool × Link)
conn_doio env link =
    if link.is_open
    then doio_socket env link (doio_polled env.now env.events link.conn.client_sock)
    else closed_doio link
