-- ===== src/Connection/Pending.antt =====
-- What `twopence_conn_doio` of library/connection.c does with the transactions, and what a closed socket
-- means for those that are left.
use twopence.Prelude.{
  ◌≡◌, refl, sym, ap, ◌∙◌, Bool, true, false, Option, none, some, List, [], ◌∷◌, arith, Bool-cases,
  inl, inr, if◌then◌else◌,
}
use twopence.Timeout
use twopence.Timeout.{Timeval, Pollinfo}
use twopence.Socket.{Sock, xmit_queue_allowed}
use twopence.Socket.Doio.{doio_polled}
use twopence.Transaction.{Trans, Channel}
use twopence.Transaction.Forward.{ReadEof}
use twopence.Transaction.Doio.{
  Filled, Pass, with_sources, fill_sources, transaction_fill_poll, transaction_doio,
}
use twopence.Connection.{Conn, update_send_keepalive}
use twopence.Connection.Link.{Link, close, complete}
use twopence.Connection.Doio.{
  Env, Worked, doio_transactions, doio_rest, worked, still_pending, poll_transactions,
  conn_fill_poll, conn_doio, doio_socket, closed_doio, timed, first, then_socket,
}

-- The work on each transaction succeeds.
abbrev pub AllWork : Env → List Trans → Sock → Type 0
AllWork env [] sock = Unit {0}
AllWork env (trans ∷ rest) sock =
    (trans' : Trans) × (sock' : Sock) × (transaction_doio env.now env.events env.read_eof env.errno
        (env.send trans) trans sock
      ≡ some (trans', sock'))
    × AllWork env rest sock'

-- The transactions as the work leaves them, in the order of the list.
abbrev pub results :
    (env : Env) (list : List Trans) (sock : Sock) → AllWork env list sock → List Trans
results env [] sock a = []
results env (trans ∷ rest) sock (trans', sock', done, a) = trans' ∷ results env rest sock' a

abbrev pub unfinished : List Trans → List Trans
unfinished [] = []
unfinished (trans ∷ rest) = if trans.done then unfinished rest else trans ∷ unfinished rest

-- The finished ones in front of `old`, the last one first.
abbrev pub retired : List Trans → List Trans → List Trans
retired [] old = old
retired (trans ∷ rest) old = retired rest (if trans.done then trans ∷ old else old)

-- What has become of the transactions: those that are not done are pending, in order, and the others are
-- in front of the finished ones, where these are kept.
pub record Sorted (keeps : Bool) (worked old pending finished : List Trans) : Type 0 where
  pub running : pending ≡ unfinished worked
  pub kept : keeps ≡ true → finished ≡ retired worked old
  pub freed : keeps ≡ false → finished ≡ old

doio_transactions-Sorted :
    (env : Env) (keeps : Bool) (list : List Trans) (sock : Sock) (finished : List Trans)
    (a : AllWork env list sock)
    → (w : Worked) × (doio_transactions env keeps list sock finished ≡ some w)
      × Sorted keeps (results env list sock a) finished w.pending w.finished
unfolding doio_transactions
doio_transactions-Sorted env keeps [] sock finished a =
    (_, refl, record { running = refl; kept = λ e. refl; freed = λ e. refl })
doio_transactions-Sorted env keeps (trans ∷ rest) sock finished (trans', sock', done, a) =
    let left = unfinished (results env rest sock' a) in
    let more = results env rest sock' a in
    elim (Bool-cases trans'.done) [
      | inl d ↦
          let (w, eq, s) =
            doio_transactions-Sorted env keeps rest sock' (complete keeps trans' finished) a in
          (
            w,
            rw (done, doio_transactions)
                (ap
                    (λ b.
                      if b
                      then doio_transactions env keeps rest sock' (complete keeps trans' finished)
                      else still_pending trans' (doio_transactions env keeps rest sock' finished))
                    d
                  ∙ eq),
            record {
              running = s.running ∙ ap (λ b. if b then left else trans' ∷ left) (sym d);
              kept = λ k.
                  s.kept k
                  ∙ ap (λ b. retired more (complete b trans' finished)) k
                  ∙ ap (λ b. retired more (if b then trans' ∷ finished else finished)) (sym d);
              freed = λ k. s.freed k ∙ ap (λ b. complete b trans' finished) k;
            },
          )
      | inr d ↦
          let (w, eq, s) = doio_transactions-Sorted env keeps rest sock' finished a in
          (
            record w { pending = trans' ∷ w.pending },
            rw (done, doio_transactions)
                (ap
                    (λ b.
                      if b
                      then doio_transactions env keeps rest sock' (complete keeps trans' finished)
                      else still_pending trans' (doio_transactions env keeps rest sock' finished))
                    d
                  ∙ ap (still_pending trans') eq),
            record {
              running =
                  ap (◌∷◌ trans') s.running ∙ ap (λ b. if b then left else trans' ∷ left) (sym d);
              kept = λ k.
                  s.kept k
                  ∙ ap (λ b. retired more (if b then trans' ∷ finished else finished)) (sym d);
              freed = s.freed;
            },
          )
    ]

update_send_keepalive-transactions :
    (conn : Conn) → (update_send_keepalive conn).transactions ≡ conn.transactions
unfolding update_send_keepalive
update_send_keepalive-transactions conn = ground arith

-- If the work on each transaction succeeds, so does the work on the connection that follows the
-- received packets, which stays open or closed as it was: the transactions as their work left them
-- that are not done are the pending ones, in order, and those that are done are in front of the
-- finished ones, the last one first, where finished ones are kept, and are gone where they are
-- not.
pub doio_rest-Sorted :
    (env : Env) (link : Link) (a : AllWork env link.conn.transactions link.conn.client_sock)
    → (link' : Link) × (doio_rest env link ≡ some (true, link'))
      × (link'.is_open ≡ link.is_open)
      × Sorted link.keeps_done
          (results env link.conn.transactions link.conn.client_sock a)
          link.done_transactions
          link'.conn.transactions
          link'.done_transactions
unfolding doio_rest
doio_rest-Sorted env link a =
    let (w, done, s) =
      doio_transactions-Sorted env link.keeps_done link.conn.transactions link.conn.client_sock
        link.done_transactions a in
    let conn = record link.conn { client_sock = w.sock; transactions = w.pending } in
    (
      _,
      ap (worked link) done,
      refl,
      record {
        running = update_send_keepalive-transactions conn ∙ s.running;
        kept = s.kept;
        freed = s.freed;
      },
    )

-- A transaction that is not late comes out of `transaction_fill_poll` not late.
abbrev NotLate : Option Filled → Type 0
NotLate none = Unit {0}
NotLate (some f) = f.in_time ≡ true

with_sources-NotLate : (o : Option (Pass × Pollinfo)) → NotLate (with_sources o)
with_sources-NotLate none = tt
with_sources-NotLate (some (p, pinfo)) = refl

fill_sources-NotLate :
    (now : Timeval) (callback : ReadEof) (again : Bool) (trans : Trans) (sock : Sock)
    (o : Option (List Channel × Pollinfo))
    → NotLate (fill_sources now callback again trans sock o)
unfolding fill_sources
fill_sources-NotLate now callback again trans sock none = tt
fill_sources-NotLate now callback again trans sock (some (sinks, pinfo)) =
    elim (Bool-cases (xmit_queue_allowed sock)) [
      | inl a ↦ rw a (with_sources-NotLate _)
      | inr full ↦ rw full refl
    ]

fill_poll-NotLate :
    (now : Timeval) (callback : ReadEof) (again : Bool) (trans : Trans) (sock : Sock)
    (pinfo : Pollinfo)
    → (Timeout.update pinfo.timeout trans.deadline).0 ≡ true
    → NotLate (transaction_fill_poll now callback again trans sock pinfo)
unfolding transaction_fill_poll
fill_poll-NotLate now callback again trans sock pinfo e =
    rw e (fill_sources-NotLate now callback again trans sock _)

poll_fault :
    (env : Env) (trans : Trans) (rest : List Trans) (sock : Sock) (pinfo : Pollinfo)
    (o : Option Filled)
    → transaction_fill_poll env.now env.read_eof env.again trans sock pinfo ≡ o
    → NotLate o
    → poll_transactions env false (trans ∷ rest) sock pinfo ≡ none
unfolding poll_transactions
poll_fault env trans rest sock pinfo none e n = rw (e, poll_transactions) refl
poll_fault env trans rest sock pinfo (some f) e n =
    rw (e, poll_transactions)
      (ap
        (λ b.
          if b
          then none
          else first (timed f) (poll_transactions env false rest f.transport f.pinfo))
        n)

conn_doio-failed :
    (env : Env) (link : Link) (sock : Sock)
    → link.is_open ≡ true
    → doio_polled env.now env.events link.conn.client_sock ≡ some (false, sock)
    → conn_doio env link
      ≡ some (false, close (record link { conn = record link.conn { client_sock = sock } }))
unfolding conn_doio
conn_doio-failed env link sock o failed =
    ap
      (λ b.
        if b
        then doio_socket env link (doio_polled env.now env.events link.conn.client_sock)
        else closed_doio link)
      o
    ∙ ap (doio_socket env link) failed

-- Where the work on the socket of an open connection fails, doio returns an error and leaves the
-- transactions pending; the next fill_poll, if the first of them has not reached its deadline, is
-- an access to freed memory.
pub doio_failed-fault :
    (env env' : Env) (link : Link) (trans : Trans) (rest : List Trans) (sock : Sock)
    (pinfo : Pollinfo)
    → link.is_open ≡ true
    → link.conn.transactions ≡ trans ∷ rest
    → doio_polled env.now env.events link.conn.client_sock ≡ some (false, sock)
    → (Timeout.update pinfo.timeout trans.deadline).0 ≡ true
    → (link' : Link) × (conn_doio env link ≡ some (false, link'))
      × (link'.conn.transactions ≡ trans ∷ rest)
      × (conn_fill_poll env' link' pinfo ≡ none)
unfolding conn_doio conn_fill_poll close
doio_failed-fault env env' link trans rest sock pinfo o pending failed in_time = (
  close (record link { conn = record link.conn { client_sock = sock } }),
  conn_doio-failed env link sock o failed,
  pending,
  ap
      (then_socket env' pinfo.num_fds
        (close (record link { conn = record link.conn { client_sock = sock } })))
      (ap (λ l. poll_transactions env' false l sock pinfo) pending
        ∙ poll_fault env' trans rest sock pinfo _ refl
            (fill_poll-NotLate env'.now env'.read_eof env'.again trans sock pinfo in_time)),
)
