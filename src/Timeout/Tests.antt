-- ===== src/Timeout/Tests.antt =====
-- Deadlines of library/utils.c on concrete times, and the theorems applied.
use mathlib.Core.Option
use twopence.Prelude.{ℕ, ◌-◌, ◌/◌, ◌≡◌, refl, none, some, List, [], ◌∷◌, arith}
use twopence.Timeout.{
  Timeval, never, init, update, update_all, msec, timespec, is_set, before, reached, Pollinfo,
  pollinfo_update, add_pollfd,
}
use twopence.Timeout.Polling.{IsPolling}
use twopence.Timeout.Earliest.{micros, IsValid, earliest, msec-earliest}

abbrev at : ℕ → ℕ → Timeval
at sec usec = record { sec = sec; usec = usec }

abbrev deadlines : List Timeval
deadlines = at 105 200000 ∷ never ∷ at 103 900000 ∷ at 104 0 ∷ []

-- 1.7 seconds to the third deadline
msec-deadlines : msec (update_all (init (at 102 200000)) deadlines) ≡ some 1700
unfolding msec update_all update reached before init
msec-deadlines = refl

timespec-late : timespec (update (init (at 104 5)) (at 103 0)).1 ≡ some (0, 0)
unfolding timespec update reached before init
timespec-late = refl

tmo-IsValid : IsValid (record { now = at 102 200000; until = at 103 0 })
unfolding is_set
tmo-IsValid = record {
  now = omega arith;
  positive = omega arith;
  until = omega arith;
  later = λ e. omega arith;
}

msec-earliest_example :
    msec (update_all (init (at 102 200000)) deadlines)
    ≡ Option.map
        (λ m. (m - micros (at 102 200000)) / 1000)
        (earliest (micros (at 102 200000)) deadlines)
msec-earliest_example =
    msec-earliest (at 102 200000) deadlines (omega arith) (omega arith)
      (omega arith, (omega arith, (omega arith, (omega arith, tt))))

-- Room for one descriptor, then none.
abbrev one_fd : Pollinfo
one_fd = record {
  max_fds = 1;
  num_fds = 0;
  pfd = [];
  timeout = record { now = at 102 0; until = never };
}

one_fd-IsPolling : IsPolling one_fd
one_fd-IsPolling = record { bounded = omega arith; written = refl }

pollinfo_update-full :
    ((pollinfo_update one_fd 7 1 none).0 ≡ some 0)
    × ((pollinfo_update (pollinfo_update one_fd 7 1 none).1 8 1 none).0 ≡ none)
    × ((pollinfo_update one_fd 7 1 (some (at 101 0))).0 ≡ none)
unfolding pollinfo_update add_pollfd update reached
pollinfo_update-full = (refl, refl, refl)
