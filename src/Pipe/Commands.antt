-- ===== src/Pipe/Commands.antt =====
-- The calls that library/pipe.c offers: a command, the two transfers of files, the chat with a command in
-- the background, and what ends them.
use twopence.Prelude.{
  ℕ, ◌+◌, ◌-◌, ◌%◌, Bool, true, false, not, ◌&&◌, ◌||◌, Option, none, some, List, [], ◌∷◌, ◌==◌,
  if◌then◌else◌,
}
use twopence.Timeout.{Timeval}
use twopence.Iostream
use twopence.Iostream.{Iostream}
use twopence.Socket.{Sock}
use twopence.Protocol.{type_command, type_inject, type_extract, type_quit, type_intr}
use twopence.Protocol.Build.{Built, packet, null, aborted, Command, Transfer, build_simple_packet}
use twopence.Transaction.{Channel, Trans, trans_new}
use twopence.Transaction.Channels.{attach_local_source_stream, attach_local_sink_stream}
use twopence.Transaction.Doio.{send_command, send_inject, send_extract, set_timeout}
use twopence.Connection.{find_transaction, put_transaction}
use twopence.Connection.Link.{Link, close, add_transaction, has_pending_transactions, xmit_packet}
use twopence.Connection.Doio.{transport_error}
use twopence.Pipe.{Pipe, Rc, ok, failed, Keepalive, Incoming, invalid_username, open_link}
use twopence.Pipe.Receive.{first_source}
use twopence.Pipe.Run.{World, Status, Ended, waiting, abort, ended, run, cancelled, pipe_doio}

-- What a plugin's `open` returns.
abbrev pub Opened : Type 0
Opened = Option (Sock × Incoming)

-- `twopence_pipe_transaction_new`
abbrev pub transaction_new : Pipe → ℕ → Trans × Pipe
transaction_new pipe type = (
  trans_new type pipe.ps,
  record pipe { ps = record pipe.ps { xid = (pipe.ps.xid + 1) % 65536 } },
)

-- `__twopence_pipe_transaction_attach_stdin`: a source whose end is sent. `answers` is what the kernel will
-- do with writes to the descriptor.
abbrev pub unblocked : Iostream → Iostream
unblocked stream = (Iostream.set_blocking stream false).1

abbrev pub sends_eof : Channel → Channel
sends_eof c = record c { on_read_eof = true }

unfoldable pub attach_stdin : Trans → Iostream → List (Option ℕ) → Trans
attach_stdin trans stream answers =
    let trans' = attach_local_source_stream trans 0 (unblocked stream) answers in
    record trans' { local_source = first_source sends_eof trans'.local_source }

-- The streams of a command.
pub record Streams : Type 0 where
  pub input : Iostream
  pub output : Iostream
  pub error : Iostream
  pub answers : ℕ → List (Option ℕ)

unfoldable pub attach_all : Trans → Streams → Trans
attach_all trans s =
    attach_local_sink_stream
      (attach_local_sink_stream (attach_stdin trans s.input (s.answers 0)) 1 s.output (s.answers 1))
      2 s.error (s.answers 2)

-- The part that a command and the two transfers share: the link is opened, a transaction made and its
-- packet sent; then it is prepared and added to those that are pending. 3 is
-- TWOPENCE_SEND_COMMAND_ERROR.
pub data Start : Type 0 where
  refused : Rc → Pipe → Start
  started : Trans → Pipe → Start
  fault : Start

abbrev pub with_link : Pipe → Link → Pipe
with_link pipe link = record pipe { connection = some link }

abbrev pub with_sock : Link → Sock → Link
with_sock link sock = record link { conn = record link.conn { client_sock = sock } }

abbrev pub start_sent : Pipe → Link → Trans → Option (Bool × Sock) → Start
start_sent pipe link trans none = fault
start_sent pipe link trans (some (false, sock)) =
    refused (failed 3) (with_link pipe (with_sock link sock))
start_sent pipe link trans (some (true, sock)) =
    started trans (with_link pipe (add_transaction (with_sock link sock) trans))

abbrev pub Sender : Type 0
Sender = Trans → Sock → Option (Bool × Sock)

abbrev pub start_on : Pipe → ℕ → Sender → (Trans → Trans) → Option Link → Start
start_on pipe type send prepare none = fault
start_on pipe type send prepare (some link) =
    let (trans, pipe') = transaction_new pipe type in
    start_sent pipe' link (prepare trans) (send trans link.conn.client_sock)

abbrev pub start_opened : ℕ → Sender → (Trans → Trans) → Option (Rc × Pipe) → Start
start_opened type send prepare none = fault
start_opened type send prepare (some (failed e, pipe)) = refused (failed 2) pipe
start_opened type send prepare (some (ok n, pipe)) = start_on pipe type send prepare pipe.connection

unfoldable pub start : Timeval → Opened → ℕ → Sender → (Trans → Trans) → Pipe → Start
start now opened type send prepare pipe = start_opened type send prepare (open_link now opened pipe)

-- `__twopence_pipe_command`: a user that is NULL is an access through it, and a command that is missing or
-- empty an error, 1, which is TWOPENCE_PARAMETER_ERROR.
abbrev pub foreground : Trans → Pipe → Pipe
foreground trans pipe = record pipe { current = some trans.ps }

abbrev pub no_foreground : Ended → Ended
no_foreground (waiting pipe) = waiting pipe
no_foreground abort = abort
no_foreground (ended rc status pipe) = ended rc status (record pipe { current = none })

abbrev pub command_started : List World → Bool → Status → Start → Ended
command_started ws in_background status fault = abort
command_started ws in_background status (refused rc pipe) = ended rc status pipe
command_started ws in_background status (started trans pipe) =
    if in_background
    then ended (ok trans.id) status pipe
    else no_foreground (run ws (foreground trans pipe) trans.id status)

abbrev pub is_missing : Option (List ℕ) → Bool
is_missing none = true
is_missing (some []) = true
is_missing (some (c ∷ cs)) = false

unfoldable pub command :
    List World → Timeval → Opened → Command → Streams → Bool → Status → Pipe → Ended
command ws now opened cmd streams in_background status pipe = elim cmd.user [
  | none ↦ abort
  | some user ↦
      if invalid_username user || is_missing cmd.command
      then ended (failed 1) status pipe
      else command_started ws in_background status (
          start now opened type_command (λ trans sock. send_command now trans sock cmd)
            (λ trans. attach_all (set_timeout now trans cmd.timeout) streams) pipe)
]

-- `twopence_pipe_inject_file` and `twopence_pipe_extract_file`, each with the function that it calls. 9 is
-- TWOPENCE_REMOTE_FILE_ERROR.
abbrev pub remote_error : Ended → Ended
remote_error (waiting pipe) = waiting pipe
remote_error abort = abort
remote_error (ended (failed e) status pipe) = ended (failed e) status pipe
remote_error (ended (ok n) status pipe) =
    if n == 0 && not (status.major == 0 && status.minor == 0)
    then ended (failed 9) status pipe
    else ended (ok n) status pipe

abbrev pub transfer_started : List World → Status → Start → Ended
transfer_started ws status fault = abort
transfer_started ws status (refused rc pipe) = ended rc status pipe
transfer_started ws status (started trans pipe) = run ws pipe trans.id status

abbrev pub plugged_source : Trans → Iostream → List (Option ℕ) → Trans
plugged_source trans stream answers =
    let trans' = attach_local_source_stream trans 0 stream answers in
    record trans' {
      local_source =
          first_source (λ c. record c { on_read_eof = true; plugged = true }) trans'.local_source;
    }

unfoldable pub inject_file :
    List World
    → Timeval
    → Opened
    → Transfer
    → Option Iostream
    → List (Option ℕ)
    → Status
    → Pipe
    → Ended
inject_file ws now opened xfer stream answers status pipe = elim xfer.user [
  | none ↦ abort
  | some user ↦ elim stream [
    | none ↦ ended (failed 1) status pipe
    | some s ↦
        if invalid_username user
        then ended (failed 1) status pipe
        else remote_error (
            transfer_started ws status (
              start now opened type_inject (λ trans sock. send_inject now trans sock xfer)
                (λ trans. plugged_source trans s answers) pipe))
  ]
]

abbrev pub extracting_sink : Trans → Iostream → List (Option ℕ) → Trans
extracting_sink trans stream answers =
    let trans' = attach_local_sink_stream trans 0 stream answers in
    record trans' {
      local_sink = first_source (λ c. record c { on_write_eof = true }) trans'.local_sink;
    }

abbrev pub is_none : Option (List ℕ) → Bool
is_none none = true
is_none (some t) = false

unfoldable pub extract_file :
    List World → Timeval → Opened → Transfer → Iostream → List (Option ℕ) → Status → Pipe → Ended
extract_file ws now opened xfer stream answers status pipe = elim xfer.user [
  | none ↦ abort
  | some user ↦
      if invalid_username user || is_none xfer.name
      then ended (failed 1) status pipe
      else remote_error (
          transfer_started ws status (
            start now opened type_extract (λ trans sock. send_extract now trans sock xfer)
              (λ trans. extracting_sink trans stream answers) pipe))
]

-- The transaction of the list, changed in place.
abbrev pub put_in : Link → ℕ → Trans → Link
put_in link xid trans = record link {
  conn = record link.conn { transactions = put_transaction link.conn.transactions xid trans };
}

-- `twopence_pipe_chat_recv`: the transaction is found by its id, also where it is finished; 20 is
-- TWOPENCE_INVALID_TRANSACTION.
abbrev pub find_any : Link → ℕ → Option Trans
find_any link xid = elim (find_transaction link.conn.transactions xid) [
  | some trans ↦ some trans
  | none ↦ find_transaction link.done_transactions xid
]

abbrev pub set_chat : Option Timeval → Link → ℕ → Link
set_chat deadline link xid = elim (find_transaction link.conn.transactions xid) [
  | some trans ↦ put_in link xid (record trans { chat_deadline = deadline })
  | none ↦ elim (find_transaction link.done_transactions xid) [
    | none ↦ link
    | some trans ↦ record link {
      done_transactions =
          put_transaction link.done_transactions xid (record trans { chat_deadline = deadline });
    }
  ]
]

abbrev pub chat_in : Option Timeval → Pipe → ℕ → Pipe
chat_in deadline pipe xid = record pipe {
  connection = elim pipe.connection [ none ↦ none | some link ↦ some (set_chat deadline link xid) ];
}

pub data Chat : Type 0 where
  chat_ends : Rc → Chat
  chat_goes_on : Chat

abbrev pub chat_test : Link → ℕ → Trans → Chat
chat_test link before trans =
    if not trans.done
      && before == trans.nbytes_received
      && not (elim trans.local_sink [ [] ↦ true | c ∷ cs ↦ false ])
      && has_pending_transactions link
    then chat_goes_on
    else chat_ends (ok (trans.nbytes_received - before))

abbrev pub chat_state : Pipe → ℕ → ℕ → Chat
chat_state pipe xid before = elim pipe.connection [
  | none ↦ chat_ends (failed transport_error)
  | some link ↦ elim (find_any link xid) [
    | none ↦ chat_ends (failed 20)
    | some trans ↦ chat_test link before trans
  ]
]

unfoldable pub chat_loop : List World → Pipe → ℕ → Timeval → ℕ → Status → Ended
chat_loop [] pipe xid deadline before status = elim (chat_state pipe xid before) [
  | chat_ends rc ↦ ended rc status pipe
  | chat_goes_on ↦ waiting pipe
]
chat_loop (w ∷ ws) pipe xid deadline before status = elim (chat_state pipe xid before) [
  | chat_ends rc ↦ ended rc status pipe
  | chat_goes_on ↦ elim (pipe_doio w (chat_in (some deadline) pipe xid)) [
    | none ↦ abort
    | some (false, pipe') ↦ ended (failed transport_error) status (chat_in none pipe' xid)
    | some (true, pipe') ↦ chat_loop ws (chat_in none pipe' xid) xid deadline before status
  ]
]

unfoldable pub chat_recv : List World → Pipe → ℕ → Timeval → Status → Ended
chat_recv ws pipe xid deadline status = elim pipe.connection [
  | none ↦ ended (failed transport_error) status pipe
  | some link ↦ elim (find_transaction link.conn.transactions xid) [
    | none ↦ ended (failed 20) status pipe
    | some trans ↦ chat_loop ws pipe xid deadline trans.nbytes_received status
  ]
]

-- `twopence_pipe_disconnect` and `twopence_pipe_cancel_transactions`, which return 0; 21 is
-- TWOPENCE_COMMAND_CANCELED_ERROR.
abbrev pub closed : Pipe → Pipe
closed pipe = record pipe {
  connection = elim pipe.connection [ none ↦ none | some link ↦ some (close link) ];
}

unfoldable pub disconnect : Pipe → Pipe
disconnect pipe = cancelled (closed pipe) transport_error

unfoldable pub cancel_all : Pipe → Pipe
cancel_all pipe = cancelled pipe 21

-- `__twopence_pipe_send`: whether the result is not negative.
abbrev pub pipe_sent : Pipe → Option (Bool × Link) → Option (Bool × Pipe)
pipe_sent pipe none = none
pipe_sent pipe (some (done, link)) = some (done, with_link pipe link)

abbrev pub send_on : Timeval → Pipe → Option Link → Built → Option (Bool × Pipe)
send_on now pipe none (packet bp) = some (false, pipe)
send_on now pipe (some link) (packet bp) = pipe_sent pipe (xmit_packet now link bp)
send_on now pipe link null = none
send_on now pipe link aborted = none

unfoldable pub send : Timeval → Pipe → Built → Option (Bool × Pipe)
send now pipe bp = send_on now pipe pipe.connection bp

-- `twopence_pipe_exit_remote` and `twopence_pipe_interrupt_command`: 11 is
-- TWOPENCE_INTERRUPT_COMMAND_ERROR.
abbrev pub interrupted : Option (Bool × Pipe) → Option (Rc × Pipe)
interrupted none = none
interrupted (some (done, pipe)) = some (if done then ok 0 else failed 11, pipe)

abbrev pub exit_opened : Timeval → Option (Rc × Pipe) → Option (Rc × Pipe)
exit_opened now none = none
exit_opened now (some (failed e, pipe)) = some (failed 2, pipe)
exit_opened now (some (ok n, pipe)) =
    interrupted (send now pipe (build_simple_packet none type_quit))

unfoldable pub exit_remote : Timeval → Opened → Pipe → Option (Rc × Pipe)
exit_remote now opened pipe = exit_opened now (open_link now opened pipe)

unfoldable pub interrupt_command : Timeval → Pipe → Option (Rc × Pipe)
interrupt_command now pipe = elim pipe.current [
  | none ↦ some (ok 0, pipe)
  | some ps ↦ elim pipe.connection [
    | none ↦ some (failed 2, pipe)
    | some link ↦ interrupted (send now pipe (build_simple_packet (some ps) type_intr))
  ]
]

-- `twopence_pipe_set_option`: 15 is TWOPENCE_UNSUPPORTED_FUNCTION_ERROR.
unfoldable pub set_option : Pipe → Bool → Keepalive → Rc × Pipe
set_option pipe is_keepalive value =
    if not is_keepalive then (failed 15, pipe) else elim pipe.connection [
      | some link ↦ (failed 15, pipe)
      | none ↦ (ok 0, record pipe { keepalive = value })
    ]
