-- ===== src/Connection/Pool.antt =====
-- The pool of all connections of library/connection.c.
use twopence.Prelude.{
  ℕ, ◌+◌, Bool, true, false, not, ◌&&◌, Option, none, some, List, [], ◌∷◌, ◌==◌, if◌then◌else◌,
}
use twopence.Timeout.{Pollinfo, pollinfo_init}
use twopence.Timer
use twopence.Timer.{Timers}
use twopence.Transaction.{Trans}
use twopence.Transaction.Channels.{num_channels}
use twopence.Connection.Link.{Link, close}
use twopence.Connection.Doio.{Env, conn_fill_poll, conn_doio}

-- The first loop of `twopence_conn_pool_poll`: a connection that waits for nothing and is closed leaves
-- the pool, and goes to the callback, which frees it in the server and is not set in the client.
pub record FilledPool : Type 0 where
  pub kept : List Link
  pub gone : List Link
  pub pinfo : Pollinfo

abbrev pub sorted : Bool → Link → Option FilledPool → Option FilledPool
sorted leaves link none = none
sorted leaves link (some f) =
    if leaves
    then some (record f { gone = link ∷ f.gone })
    else some (record f { kept = link ∷ f.kept })

unfoldable pub fill_pool : Env → List Link → Pollinfo → Option FilledPool
fill_pool env [] pinfo = some (record { kept = []; gone = []; pinfo = pinfo })
fill_pool env (link ∷ rest) pinfo = elim (conn_fill_poll env link pinfo) [
  | none ↦ none
  | some (n, link', pinfo') ↦ sorted (n == 0 && not link'.is_open) link' (fill_pool env rest pinfo')
]

-- The second loop.
abbrev pub closed_if : Bool × Link → Link
closed_if (ok, link) = if ok then link else close link

unfoldable pub doio_pool : Env → List Link → Option (List Link)
doio_pool env [] = some []
doio_pool env (link ∷ rest) = elim (conn_doio env link) [
  | none ↦ none
  | some r ↦ elim (doio_pool env rest) [ none ↦ none | some links ↦ some (closed_if r ∷ links) ]
]

-- The number of descriptors that there may be.
unfoldable pub channels_of : List Trans → ℕ
channels_of [] = 0
channels_of (trans ∷ rest) = num_channels trans + channels_of rest

unfoldable pub max_fds : List Link → ℕ
max_fds [] = 0
max_fds (link ∷ rest) = 1 + channels_of link.conn.transactions + max_fds rest

-- `twopence_conn_pool_poll`: whether connections are left, the connections and those that have left the
-- pool, and the timers with the callbacks that have been called.
pub record Polled : Type 0 where
  pub connections : List Link
  pub gone : List Link
  pub called : List ℕ
  pub timers : Timers

abbrev pub timers_done : List Link → List Link → Option (List ℕ × Timers) → Option (Bool × Polled)
timers_done links gone none = none
timers_done links gone (some (called, timers)) = some (
  elim links [ [] ↦ false | l ∷ ls ↦ true ],
  record { connections = links; gone = gone; called = called; timers = timers },
)

abbrev pub pool_done : Env → Timers → List Link → Option (List Link) → Option (Bool × Polled)
pool_done env timers gone none = none
pool_done env timers gone (some links) = timers_done links gone (Timer.run env.now timers)

abbrev pub pool_filled : Env → Timers → Option FilledPool → Option (Bool × Polled)
pool_filled env timers none = none
pool_filled env timers (some f) = elim f.kept [
  | [] ↦ some (false, record { connections = []; gone = f.gone; called = []; timers = timers })
  | l ∷ ls ↦ pool_done env timers f.gone (doio_pool env (l ∷ ls))
]

unfoldable pub pool_poll : Env → Timers → List Link → Option (Bool × Polled)
pool_poll env timers [] =
    some (false, record { connections = []; gone = []; called = []; timers = timers })
pool_poll env timers (l ∷ ls) =
    let pinfo = pollinfo_init env.now (max_fds (l ∷ ls)) in
    let (linked, tmo) = Timer.update_timeout pinfo.timeout timers.linked in
    pool_filled env (record timers { linked = linked })
      (fill_pool env (l ∷ ls) (record pinfo { timeout = tmo }))
