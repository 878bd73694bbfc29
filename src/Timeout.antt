-- ===== src/Timeout.antt =====
-- library/utils.c and utils.h: points in time, the timeout of a poll, and the list of descriptors to
-- poll. Seconds are counted from the epoch: they are not negative.
pub mod Earliest
pub mod Polling
mod Tests
use twopence.Prelude.{
  ℕ, zero, suc, ◌+◌, ◌-◌, ◌*◌, ◌/◌, Bool, true, false, not, ◌&&◌, ◌||◌, Option, none, some, List,
  [], ◌∷◌, ◌++◌, ltb, leb, ◌==◌, if◌then◌else◌,
}

-- `struct timeval`
pub record Timeval : Type 0 where
  pub sec : ℕ
  pub usec : ℕ

-- `timerclear`
abbrev pub never : Timeval
never = record { sec = 0; usec = 0 }

-- The macros of sys/time.h: `timerisset`, `timercmp` with `<` and with `>=`, `timeradd`, `timersub`.
unfoldable pub is_set : Timeval → Bool
is_set tv = not (tv.sec == 0 && tv.usec == 0)

unfoldable pub before : Timeval → Timeval → Bool
before a b = if a.sec == b.sec then ltb a.usec b.usec else ltb a.sec b.sec

unfoldable pub reached : Timeval → Timeval → Bool
reached a b = if a.sec == b.sec then leb b.usec a.usec else leb b.sec a.sec

unfoldable pub add : Timeval → Timeval → Timeval
add a b =
    let sec = a.sec + b.sec in
    let usec = a.usec + b.usec in
    if leb 1000000 usec
    then record { sec = sec + 1; usec = usec - 1000000 }
    else record { sec = sec; usec = usec }

-- The first is not before the second where the code subtracts.
unfoldable pub sub : Timeval → Timeval → Timeval
sub a b =
    if ltb a.usec b.usec
    then record { sec = a.sec - b.sec - 1; usec = a.usec + 1000000 - b.usec }
    else record { sec = a.sec - b.sec; usec = a.usec - b.usec }

-- `twopence_timeout_t`
pub record Timeout : Type 0 where
  pub now : Timeval
  pub until : Timeval

-- `twopence_timeout_init`, with the time that `gettimeofday` returns.
unfoldable pub init : Timeval → Timeout
init now = record { now = now; until = never }

-- `twopence_timeout_update`
unfoldable pub update : Timeout → Timeval → Bool × Timeout
update tmo deadline =
    if deadline.sec == 0
    then (true, tmo)
    else if reached tmo.now deadline
    then (false, record tmo { until = tmo.now })
    else if not (is_set tmo.until) || before deadline tmo.until
    then (true, record tmo { until = deadline })
    else (true, tmo)

-- `twopence_timeout_msec`: none is -1.
unfoldable pub msec : Timeout → Option ℕ
unfolding is_set sub
msec tmo =
    let delta = sub tmo.until tmo.now in
    if not (is_set tmo.until) then none else some (1000 * delta.sec + delta.usec / 1000)

-- `twopence_timeout_timespec`: seconds and nanoseconds, or NULL.
unfoldable pub timespec : Timeout → Option (ℕ × ℕ)
unfolding is_set sub
timespec tmo =
    let delta = sub tmo.until tmo.now in
    if not (is_set tmo.until) then none else some (delta.sec, delta.usec * 1000)

-- `struct pollfd`, without `revents`, which poll writes.
pub record Pollfd : Type 0 where
  pub fd : ℕ
  pub events : ℕ

-- `twopence_pollinfo_t`; the list is what has been written of the array.
pub record Pollinfo : Type 0 where
  pub max_fds : ℕ
  pub num_fds : ℕ
  pub pfd : List Pollfd
  pub timeout : Timeout

-- `twopence_pollinfo_init`
unfoldable pub pollinfo_init : Timeval → ℕ → Pollinfo
unfolding init
pollinfo_init now max_fds = record { max_fds = max_fds; num_fds = 0; pfd = []; timeout = init now }

-- `twopence_pollinfo_update`: the index of the new entry, or NULL. (The first test assigns to the
-- timeout also where it fails.)
unfoldable pub add_pollfd : Pollinfo → ℕ → ℕ → Option ℕ × Pollinfo
add_pollfd pinfo fd events = if leb pinfo.max_fds pinfo.num_fds then (none, pinfo) else (
  some pinfo.num_fds,
  record pinfo {
    num_fds = pinfo.num_fds + 1;
    pfd = pinfo.pfd ++ record { fd = fd; events = events } ∷ [];
  },
)

unfoldable pub pollinfo_update : Pollinfo → ℕ → ℕ → Option Timeval → Option ℕ × Pollinfo
unfolding update add_pollfd
pollinfo_update pinfo fd events none = add_pollfd pinfo fd events
pollinfo_update pinfo fd events (some deadline) =
    let (ok, tmo) = update pinfo.timeout deadline in
    let pinfo' = record pinfo { timeout = tmo } in
    if ok then add_pollfd pinfo' fd events else (none, pinfo')

-- Several deadlines, one after the other.
unfoldable pub update_all : Timeout → List Timeval → Timeout
unfolding update
update_all tmo [] = tmo
update_all tmo (d ∷ ds) = update_all (update tmo d).1 ds
