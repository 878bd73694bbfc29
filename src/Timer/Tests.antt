-- ===== src/Timer/Tests.antt =====
-- Timers of library/timer.c on concrete times, and the theorems applied.
use twopence.Prelude.{ℕ, ◌≡◌, refl, true, not, ◌&&◌, some, [], ◌∷◌, map, reverse, keep, arith}
use twopence.Timeout.{Timeval, never, before, reached, is_set, update, init}
use twopence.Timer.{
  TimerState, active, paused, expired, cancelled, Timer, Timers, run, cancel, expire,
  update_timeout, update_timer, reap, invoke, kill,
}
use twopence.Timer.Expiry.{due, leaves, run_lem}

abbrev at : ℕ → ℕ → Timeval
at sec usec = record { sec = sec; usec = usec }

abbrev timer : ℕ → TimerState → Timeval → Timer
timer id state expires = record {
  refcount = 1;
  id = id;
  state = state;
  runtime = never;
  expires = expires;
  callback = true;
}

-- Created in the order 1 to 4: the second runs on, the third is paused.
abbrev four : Timers
four = record {
  next_id = 5;
  linked =
      timer 4 active (at 99 0)
      ∷ timer 3 paused never
      ∷ timer 2 active (at 101 0)
      ∷ timer 1 expired never
      ∷ [];
  held = [];
}

run-four :
    run (at 100 0) four
    ≡ some
        (1 ∷ 4 ∷ [], record four { linked = timer 3 paused never ∷ timer 2 active (at 101 0) ∷ [] })
unfolding run expire update_timeout update_timer update reached before init is_set reap invoke kill
run-four = refl

cancel-four :
    run (at 100 0) (cancel four 4)
    ≡ some (
      1 ∷ [],
      record four {
        linked = timer 3 paused never ∷ timer 2 active (at 101 0) ∷ [];
        held = timer 4 cancelled (at 99 0) ∷ [];
      },
    )
unfolding run expire update_timeout update_timer update reached before init is_set reap invoke kill
    cancel
cancel-four = refl

run_lem_example :
    (w' : Timers) × (run (at 100 0) four
      ≡ some
          (map (λ t. t.id) (reverse (keep (λ t. due (at 100 0) t && t.callback) four.linked)), w'))
    × (w'.linked ≡ keep (λ t. not (leaves (at 100 0) t)) four.linked)
run_lem_example =
    run_lem (at 100 0) four (omega arith) (omega arith)
      (omega arith, (omega arith, (omega arith, (omega arith, tt))))
