-- ===== src/Pipe/Run.antt =====
-- How a client of library/pipe.c waits for its transactions.
use twopence.Prelude.{
  ℕ, Bool, true, false, not, Option, none, some, List, [], ◌∷◌, ◌==◌, if◌then◌else◌,
}
use twopence.Buffer.{Buf}
use twopence.Timeout.{Timeval}
use twopence.Socket.{Sock}
use twopence.Socket.Doio.{Events}
use twopence.Protocol.{Header, type_extract}
use twopence.Transaction.{Trans}
use twopence.Connection.{Handlers}
use twopence.Connection.Link.{
  Link, is_closed, reap_transaction, cancel_transactions, has_pending_transactions,
}
use twopence.Connection.Doio.{Env, transport_error}
use twopence.Connection.Pool.{Polled, pool_poll}
use twopence.Pipe.{Pipe, Rc, ok, failed}
use twopence.Pipe.Receive.{local_source_eof, recv_of, extract_eof}

-- What one poll of the pool is given.
pub record World : Type 0 where
  pub now : Timeval
  pub fresh : ℕ → List ℕ
  pub events : Events
  pub again : Bool
  pub errno : ℕ

-- The semantics of a client: it accepts no requests, and its transactions have the callbacks of this
-- file.
abbrev pub handler_of :
    Option (Trans → ℕ → Buf → Trans) → Option (Trans → Sock → Header → Buf → Option (Trans × Sock))
handler_of none = none
handler_of (some f) = some (λ trans sock hdr payload. some (f trans hdr.type payload, sock))

abbrev pub client_handlers : World → Handlers
client_handlers w = record {
  fresh = w.fresh;
  process_request = none;
  recv = λ trans. handler_of (recv_of trans.type);
  eof = λ trans id. if trans.type == type_extract then extract_eof trans else trans;
}

abbrev pub client_env : World → Env
client_env w = record {
  now = w.now;
  handlers = client_handlers w;
  read_eof = local_source_eof w.now;
  send = λ trans. none;
  events = w.events;
  again = w.again;
  errno = w.errno;
}

-- `__twopence_pipe_doio`: whether the result is 0; else it is TWOPENCE_TRANSPORT_ERROR. A closed connection
-- leaves the pool and stays with its target.
abbrev pub connection_after : Link → List Link → List Link → Bool × Link
connection_after link (l ∷ ls) gone = (true, l)
connection_after link [] (l ∷ ls) = (false, l)
connection_after link [] [] = (false, link)

abbrev pub polled : Pipe → Link → Option (Bool × Polled) → Option (Bool × Pipe)
polled pipe link none = none
polled pipe link (some (more, p)) =
    let (pooled, link') = connection_after link p.connections p.gone in
    some (
      not (is_closed link'),
      record pipe { connection = some link'; pooled = pooled; timers = p.timers },
    )

abbrev pub pool_of : Bool → Link → List Link
pool_of pooled link = if pooled then link ∷ [] else []

unfoldable pub pipe_doio : World → Pipe → Option (Bool × Pipe)
pipe_doio w pipe = elim pipe.connection [
  | none ↦ none
  | some link ↦ polled pipe link (pool_poll (client_env w) pipe.timers (pool_of pipe.pooled link))
]

-- `twopence_status_t`
pub record Status : Type 0 where
  pub pid : ℕ
  pub major : ℕ
  pub minor : ℕ

-- How a call ends that waits: where it still waits when the list of polls has ended, that is its result.
pub data Ended : Type 0 where
  waiting : Pipe → Ended
  abort : Ended
  ended : Rc → Status → Pipe → Ended

-- `__twopence_transaction_run`: an exception is its result.
abbrev pub cancelled_link : Option Link → ℕ → Option Link
cancelled_link none error = none
cancelled_link (some link) error = some (cancel_transactions link error)

abbrev pub cancelled : Pipe → ℕ → Pipe
cancelled pipe error = record pipe { connection = cancelled_link pipe.connection error }

abbrev pub after : Bool × Pipe → Pipe
after (true, pipe) = pipe
after (false, pipe) = cancelled pipe transport_error

abbrev pub result_of : Trans → Rc
result_of trans = if trans.exception == 0 then ok 0 else failed trans.exception

abbrev pub status_of : Trans → Status
status_of trans = record { pid = trans.id; major = trans.status_major; minor = trans.status_minor }

abbrev pub finish : Pipe → Trans × Link → Ended
finish pipe (trans, link) =
    ended (result_of trans) (status_of trans) (record pipe { connection = some link })

abbrev pub reaped : Option Link → ℕ → Option (Trans × Link)
reaped none xid = none
reaped (some link) xid = reap_transaction link xid

-- One turn of the loop, before the poll.
abbrev pub turn : Option Link → Option (Trans × Link) → Pipe → Status → Ended → Ended
turn none r pipe status rest = ended (failed transport_error) status pipe
turn (some link) (some r) pipe status rest = finish pipe r
turn (some link) none pipe status rest = rest

unfoldable pub run : List World → Pipe → ℕ → Status → Ended
run [] pipe xid status =
    turn pipe.connection (reaped pipe.connection xid) pipe status (waiting pipe)
run (w ∷ ws) pipe xid status =
    let rest : Ended = elim (pipe_doio w pipe) [
      | none ↦ abort
      | some r ↦ run ws (after r) xid status
    ] in
    turn pipe.connection (reaped pipe.connection xid) pipe status rest

-- `twopence_pipe_wait`: its result is the id, or the exception; the two numbers of the status are not
-- written after an exception.
abbrev pub waited : Pipe → Status → Trans × Link → Ended
waited pipe status (trans, link) =
    let pipe' = record pipe { connection = some link } in
    if trans.exception == 0
    then ended (ok trans.id) (status_of trans) pipe'
    else ended (failed trans.exception) (record status { pid = trans.id }) pipe'

abbrev pub pending_in : Pipe → Bool
pending_in pipe = elim pipe.connection [ none ↦ false | some link ↦ has_pending_transactions link ]

unfoldable pub wait : List World → Pipe → ℕ → Status → Ended
wait [] pipe xid status = elim (reaped pipe.connection xid) [
  | some r ↦ waited pipe status r
  | none ↦ if pending_in pipe then waiting pipe else ended (ok 0) status pipe
]
wait (w ∷ ws) pipe xid status = elim (reaped pipe.connection xid) [
  | some r ↦ waited pipe status r
  | none ↦ elim (pending_in pipe) [
    | false ↦ ended (ok 0) status pipe
    | true ↦ elim (pipe_doio w pipe) [
      | none ↦ abort
      | some (true, pipe') ↦ wait ws pipe' xid status
      | some (false, pipe') ↦ ended (failed transport_error) status pipe'
    ]
  ]
]
