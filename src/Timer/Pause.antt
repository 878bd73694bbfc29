-- ===== src/Timer/Pause.antt =====
-- `twopence_timer_pause` and `twopence_timer_unpause` of library/timer.c: what a pause does to the time
-- that a timer has left.
use twopence.Prelude.{ℕ, ◌+◌, ◌-◌, ◌*◌, ◌/◌, ◌≡◌, refl, sym, ap, ◌∙◌, if◌then◌else◌, arith, subst}
use twopence.Timeout.{Timeval, never, before, add, sub}
use twopence.Timeout.Earliest.{micros, IsNormal, before_lem, sub_lem, add_lem}
use twopence.Timer.{active, Timer, pause, unpause, remaining}

-- The milliseconds from one time to another, rounded down, as the code computes them.
abbrev millis : Timeval → ℕ
millis tv = 1000 * tv.sec + tv.usec / 1000

millis_lem : (tv : Timeval) → IsNormal tv → millis tv ≡ micros tv / 1000
millis_lem tv n = omega arith

-- The time that an active timer has left.
remaining_lem :
    (now : Timeval) (t : Timer)
    → IsNormal now
    → IsNormal t.expires
    → t.state ≡ active
    → remaining now t ≡ (micros t.expires - micros now) / 1000
unfolding remaining
remaining_lem now t n ne e = rw e (
    ground (
      arith,
      before_lem now t.expires n ne,
      sub_lem t.expires now ne n,
      millis_lem (sub t.expires now),
    ))

-- What `pause` stores as the run time.
abbrev left : Timeval → Timeval → Timeval
left now expires = if before now expires then sub expires now else never

left_lem :
    (now expires : Timeval)
    → IsNormal now
    → IsNormal expires
    → (micros (left now expires) ≡ micros expires - micros now) × IsNormal (left now expires)
left_lem now expires n ne = ground (arith, before_lem now expires n ne, sub_lem expires now ne n)

pause-unpause_fields :
    (now later : Timeval) (t : Timer)
    → t.state ≡ active
    → let t' = unpause later (pause now t) in
      (t'.state ≡ active) × (t'.expires ≡ add (left now t.expires) later)
unfolding pause unpause
pause-unpause_fields now later t e = rw e (refl, refl)

-- An active timer that is paused and continued later is active again with the same time left: it
-- expires as much after the later time as it would have after the earlier, or at once if it had
-- been over.
pub pause-unpause :
    (now later : Timeval) (t : Timer)
    → IsNormal now
    → IsNormal later
    → IsNormal t.expires
    → t.state ≡ active
    → let t' = unpause later (pause now t) in
      (t'.state ≡ active)
      × (micros t'.expires ≡ micros later + (micros t.expires - micros now))
      × (remaining later t' ≡ remaining now t)
pause-unpause now later t n nl ne e =
    let (active_again, at) = pause-unpause_fields now later t e in
    let (kept, normal) = left_lem now t.expires n ne in
    let (sum, normal') = add_lem (left now t.expires) later normal nl in
    let shifted : micros (unpause later (pause now t)).expires
        ≡ micros later + (micros t.expires - micros now) =
      ap micros at ∙ sum ∙ omega (arith, kept) in
    (
      active_again,
      shifted,
      remaining_lem later (unpause later (pause now t)) nl (subst IsNormal (sym at) normal')
            active_again
          ∙ ap (λ m. m / 1000) (omega (arith, shifted))
          ∙ sym (remaining_lem now t n ne e),
    )
