-- ===== src/Transaction/Doio.antt =====
-- The work of library/transaction.c on all channels of a transaction, before and after a poll, and the
-- packets that start one.
use twopence.Prelude.{
  ℕ, ◌+◌, Bool, true, false, not, Option, none, some, List, [], ◌∷◌, ◌==◌, if◌then◌else◌,
}
use twopence.Buffer.{Buf}
use twopence.Timeout
use twopence.Timeout.{Timeval, Timeout, Pollinfo}
use twopence.Socket.{Sock, xmit, xmit_queue_allowed}
use twopence.Socket.Doio.{Events}
use twopence.Protocol.{type_intr}
use twopence.Protocol.Build.{
  Built, packet, null, aborted, build_extract_packet, build_inject_packet, build_command_packet,
  build_simple_packet, Command, Transfer,
}
use twopence.Transaction.{Channel, Trans, list_purge}
use twopence.Transaction.Channels.{channel_poll}
use twopence.Transaction.Forward.{Work, ReadEof, forward, channel_doio}

-- The sinks of `twopence_transaction_fill_poll`.
unfoldable pub poll_sinks : List Channel → Pollinfo → Option (List Channel × Pollinfo)
poll_sinks [] pinfo = some ([], pinfo)
poll_sinks (sink ∷ rest) pinfo = elim (channel_poll sink pinfo) [
  | none ↦ none
  | some (added, sink', pinfo') ↦ elim (poll_sinks rest pinfo') [
    | none ↦ none
    | some (rest', pinfo2) ↦ some (sink' ∷ rest', pinfo2)
  ]
]

-- What goes through the list of the sources: the transaction, the transport, and the channels done.
pub record Pass : Type 0 where
  pub trans : Trans
  pub transport : Sock
  pub channels : List Channel

abbrev pub before : Channel → Option (Pass × Pollinfo) → Option (Pass × Pollinfo)
before c none = none
before c (some (p, pinfo)) = some (record p { channels = c ∷ p.channels }, pinfo)

abbrev pub polled_or_forwarded :
    Timeval
    → ReadEof
    → Bool
    → Trans
    → Sock
    → Option (Bool × Channel × Pollinfo)
    → Option (Work × Pollinfo)
polled_or_forwarded now callback again trans sock none = none
polled_or_forwarded now callback again trans sock (some (true, c, pinfo)) =
    some (record { trans = trans; transport = sock; channel = c }, pinfo)
polled_or_forwarded now callback again trans sock (some (false, c, pinfo)) =
    elim (forward now callback again (record { trans = trans; transport = sock; channel = c })) [
      | none ↦ none
      | some w ↦ some (w, pinfo)
    ]

-- The sources of `twopence_transaction_fill_poll`: one that cannot be polled is forwarded.
unfoldable pub poll_sources :
    Timeval → ReadEof → Bool → Trans → Sock → List Channel → Pollinfo → Option (Pass × Pollinfo)
poll_sources now callback again trans sock [] pinfo =
    some (record { trans = trans; transport = sock; channels = [] }, pinfo)
poll_sources now callback again trans sock (c ∷ rest) pinfo =
    elim (polled_or_forwarded now callback again trans sock (channel_poll c pinfo)) [
      | none ↦ none
      | some (w, pinfo') ↦
          before w.channel (poll_sources now callback again w.trans w.transport rest pinfo')
    ]

-- `twopence_transaction_fill_poll`: whether the deadline has not been reached, and the new state. The
-- callbacks do not change the lists of channels.
pub record Filled : Type 0 where
  pub in_time : Bool
  pub trans : Trans
  pub transport : Sock
  pub pinfo : Pollinfo

abbrev pub with_sources : Option (Pass × Pollinfo) → Option Filled
with_sources none = none
with_sources (some (p, pinfo)) = some (record {
  in_time = true;
  trans = record p.trans { local_source = p.channels };
  transport = p.transport;
  pinfo = pinfo;
})

unfoldable pub fill_sources :
    Timeval → ReadEof → Bool → Trans → Sock → Option (List Channel × Pollinfo) → Option Filled
fill_sources now callback again trans sock none = none
fill_sources now callback again trans sock (some (sinks, pinfo)) =
    let trans' = record trans { local_sink = sinks } in
    if xmit_queue_allowed sock
    then with_sources (poll_sources now callback again trans' sock trans'.local_source pinfo)
    else some (record { in_time = true; trans = trans'; transport = sock; pinfo = pinfo })

unfoldable pub transaction_fill_poll :
    Timeval → ReadEof → Bool → Trans → Sock → Pollinfo → Option Filled
transaction_fill_poll now callback again trans sock pinfo =
    let (in_time, tmo) = Timeout.update pinfo.timeout trans.deadline in
    let pinfo' = record pinfo { timeout = tmo } in
    if not in_time
    then some (record { in_time = false; trans = trans; transport = sock; pinfo = pinfo' })
    else fill_sources now callback again trans sock (poll_sinks trans.local_sink pinfo')

-- The two loops of `twopence_transaction_doio`; `errno` is that of a failed call.
abbrev pub done_before : Channel → Option Pass → Option Pass
done_before c none = none
done_before c (some p) = some (record p { channels = c ∷ p.channels })

unfoldable pub doio_all : Timeval → Events → ReadEof → ℕ → Trans → Sock → List Channel → Option Pass
doio_all now events callback errno trans sock [] =
    some (record { trans = trans; transport = sock; channels = [] })
doio_all now events callback errno trans sock (c ∷ rest) =
    elim (channel_doio now events callback errno
      (record { trans = trans; transport = sock; channel = c })) [
        | none ↦ none
        | some w ↦
            done_before w.channel (doio_all now events callback errno w.trans w.transport rest)
      ]

-- `twopence_transaction_doio`. `send` is the callback of the transaction, none if it is not set.
abbrev pub Send : Type 0
Send = Option (Trans → Sock → Option (Trans × Sock))

abbrev pub purged : Option (Trans × Sock) → Option (Trans × Sock)
purged none = none
purged (some (trans, sock)) =
    some (record trans { local_source = list_purge trans.local_source }, sock)

abbrev pub sources_done : Send → Option Pass → Option (Trans × Sock)
sources_done send none = none
sources_done send (some p) =
    let trans = record p.trans { local_source = p.channels } in
    purged (elim send [ none ↦ some (trans, p.transport) | some f ↦ f trans p.transport ])

abbrev pub sinks_done : Timeval → Events → ReadEof → ℕ → Send → Option Pass → Option (Trans × Sock)
sinks_done now events callback errno send none = none
sinks_done now events callback errno send (some p) =
    let trans = record p.trans { local_sink = list_purge p.channels } in
    sources_done send (doio_all now events callback errno trans p.transport trans.local_source)

unfoldable pub transaction_doio :
    Timeval → Events → ReadEof → ℕ → Send → Trans → Sock → Option (Trans × Sock)
transaction_doio now events callback errno send trans sock =
    sinks_done now events callback errno send
      (doio_all now events callback errno trans sock trans.local_sink)

-- `twopence_transaction_set_timeout`: a timeout that is not positive is 0 here.
unfoldable pub set_timeout : Timeval → Trans → ℕ → Trans
set_timeout now trans timeout =
    if timeout == 0
    then trans
    else record trans { deadline = record now { sec = now.sec + timeout } }

-- `twopence_transaction_update_timeout`
unfoldable pub update_timeout : Trans → Timeout → Bool × Timeout
update_timeout trans tmo = elim trans.chat_deadline [
  | none ↦ Timeout.update tmo trans.deadline
  | some chat ↦
      let (in_time, tmo') = Timeout.update tmo chat in
      if not in_time then (false, tmo') else Timeout.update tmo' trans.deadline
]

-- `twopence_transaction_send_extract`, `send_inject`, `send_command` and `send_interrupt`: whether the
-- result is 0. none is the access to a packet that is NULL, or a failed assertion.
abbrev pub was_sent : Option (Option ℕ × Sock × Buf) → Option (Bool × Sock)
was_sent none = none
was_sent (some (none, sock, bp)) = some (false, sock)
was_sent (some (some n, sock, bp)) = some (true, sock)

unfoldable pub xmit_built : Timeval → Sock → Built → Option (Bool × Sock)
xmit_built now sock (packet bp) = was_sent (xmit now sock bp)
xmit_built now sock null = none
xmit_built now sock aborted = none

unfoldable pub send_extract : Timeval → Trans → Sock → Transfer → Option (Bool × Sock)
send_extract now trans sock xfer = xmit_built now sock (build_extract_packet trans.ps xfer)

unfoldable pub send_inject : Timeval → Trans → Sock → Transfer → Option (Bool × Sock)
send_inject now trans sock xfer = xmit_built now sock (build_inject_packet trans.ps xfer)

unfoldable pub send_command : Timeval → Trans → Sock → Command → Option (Bool × Sock)
send_command now trans sock cmd = xmit_built now sock (build_command_packet trans.ps cmd)

unfoldable pub send_interrupt : Timeval → Trans → Sock → Option (Bool × Sock)
send_interrupt now trans sock = xmit_built now sock (build_simple_packet (some trans.ps) type_intr)
