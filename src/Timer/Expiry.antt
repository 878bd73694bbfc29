-- ===== src/Timer/Expiry.antt =====
-- `twopence_timers_run` of library/timer.c: which timers expire, and in which order their callbacks are
-- called.
use twopence.Prelude.{
  ℕ, suc, zero, ◌<◌, ◌≡◌, refl, sym, ap, ap₂, ◌∙◌, Bool, true, false, not, ◌&&◌, some, List, [],
  ◌∷◌, ◌++◌, map, reverse, reverse_aux, keep, keep-reverse_aux, map-reverse_aux, leb, ◌==◌,
  if◌then◌else◌, arith, Bool-cases, inl, inr, ◌⊎◌,
}
use twopence.Timeout.{Timeval, Timeout, update}
use twopence.Timeout.Earliest.{
  micros, IsNormal, IsValid, reached_lem, update-now, update-IsValid, init-IsValid, init-now,
}
use twopence.Timer.{
  TimerState, active, paused, expired, cancelled, dead, Timer, Timers, freed, alive, mark_expired,
  update_timer, update_timeout, expire, reapable, reap, calls, note, leave, invoke, release_to,
  kill, run,
}

-- When a timer is due: it has been marked, or it runs and its time has come.
abbrev pub due : Timeval → Timer → Bool
due now t = elim t.state [
  | active ↦ not (t.expires.sec == 0) && leb (micros t.expires) (micros now)
  | expired ↦ true
  | _ ↦ false
]

-- Cancelled timers leave the list, too.
abbrev pub leaves : Timeval → Timer → Bool
leaves now t = elim t.state [ cancelled ↦ true | _ ↦ due now t ]

-- A timer in memory: it has a reference, and its time of expiry is in normal form.
pub record IsAlive (t : Timer) : Type 0 where
  pub referenced : 0 < t.refcount
  pub normal : IsNormal t.expires

abbrev pub AllAlive : List Timer → Type 0
AllAlive [] = Unit {0}
AllAlive (t ∷ ts) = IsAlive t × AllAlive ts

-- A timer after the walk over the list.
abbrev marked : Timeval → Timer → Timer
marked now t = elim t.state [ active ↦ if due now t then mark_expired t else t | _ ↦ t ]

update-due :
    {tmo : Timeout} (d : Timeval)
    → IsValid tmo
    → IsNormal d
    → (update tmo d).0 ≡ not (not (d.sec == 0) && leb (micros d) (micros tmo.now))
unfolding update
update-due {tmo} d v n = ground (arith, reached_lem tmo.now d v.now n)

not-injective : (a b : Bool) → not a ≡ not b → a ≡ b
not-injective true true h = refl
not-injective true false h = sym h
not-injective false true h = sym h
not-injective false false h = refl

update_timer-marked :
    {tmo : Timeout} (t : Timer)
    → IsValid tmo
    → IsNormal t.expires
    → ((update_timer tmo t).0 ≡ marked tmo.now t)
      × ((update_timer tmo t).1.now ≡ tmo.now)
      × IsValid (update_timer tmo t).1
unfolding update_timer
update_timer-marked {tmo} t v n = go t.state refl
  where
    flag : Bool
    flag = not (t.expires.sec == 0) && leb (micros t.expires) (micros tmo.now)

    flag_lem : (b : Bool) → (update tmo t.expires).0 ≡ not b → flag ≡ b
    flag_lem b h = not-injective flag b (sym (update-due t.expires v n) ∙ h)

    go :
        (s : TimerState)
        → t.state ≡ s
        → ((update_timer tmo t).0 ≡ marked tmo.now t)
          × ((update_timer tmo t).1.now ≡ tmo.now)
          × IsValid (update_timer tmo t).1
    go active e = elim (Bool-cases (update tmo t.expires).0) [
      | inl in_time ↦ rw e (
          rw (in_time, flag_lem false in_time)
            (refl, update-now tmo t.expires, update-IsValid t.expires n v))
      | inr late ↦ rw e (
          rw (late, flag_lem true late)
            (refl, update-now tmo t.expires, update-IsValid t.expires n v))
    ]
    go paused e = rw e (refl, refl, v)
    go expired e = rw e (refl, refl, v)
    go cancelled e = rw e (refl, refl, v)
    go dead e = rw e (refl, refl, v)

update_timeout-marked :
    (ts : List Timer) {tmo : Timeout}
    → IsValid tmo
    → AllAlive ts
    → (update_timeout tmo ts).0 ≡ map (marked tmo.now) ts
unfolding update_timeout
update_timeout-marked [] v all = refl
update_timeout-marked (t ∷ ts) {tmo} v all =
    let (here, same, v') = update_timer-marked t v (all.0.normal) in
    ap₂ ◌∷◌ here (update_timeout-marked ts v' (all.1) ∙ ap (λ now. map (marked now) ts) same)

reap-keep :
    (ts moved : List Timer)
    → reap ts moved ≡ (keep (λ t. not (reapable t)) ts, reverse_aux (keep reapable ts) moved)
unfolding reap
reap-keep [] moved = refl
reap-keep (t ∷ ts) moved = elim (Bool-cases (reapable t)) [
  | inl e ↦ rw e (reap-keep ts (t ∷ moved))
  | inr e ↦ rw e (ap (λ p. (t ∷ p.0, p.1)) (reap-keep ts moved))
]

-- What the walk makes of one timer, by its state.
record Marked (now : Timeval) (t : Timer) : Type 0 where
  leaves_lem : reapable (marked now t) ≡ leaves now t
  calls_lem : calls (marked now t) ≡ (due now t && t.callback)
  stays : leaves now t ≡ false → (marked now t ≡ t) × (due now t ≡ false)
  same_id : (marked now t).id ≡ t.id
  same_count : (marked now t).refcount ≡ t.refcount

marked_lem : (now : Timeval) (t : Timer) → Marked now t
unfolding mark_expired
marked_lem now t = go t.state refl
  where
    go : (s : TimerState) → t.state ≡ s → Marked now t
    go active e =
        elim (Bool-cases (not (t.expires.sec == 0) && leb (micros t.expires) (micros now))) [
          | inl d ↦ rw e (record {
            leaves_lem = rw d refl;
            calls_lem = rw d refl;
            stays = λ h. absurd (cc (h, d));
            same_id = rw d refl;
            same_count = rw d refl;
          })
          | inr d ↦ rw e (record {
            leaves_lem = rw d refl;
            calls_lem = rw d refl;
            stays = λ h. (rw d refl, d);
            same_id = rw d refl;
            same_count = rw d refl;
          })
        ]
    go paused e = rw e (record {
      leaves_lem = refl;
      calls_lem = refl;
      stays = λ h. (refl, refl);
      same_id = refl;
      same_count = refl;
    })
    go expired e = rw e (record {
      leaves_lem = refl;
      calls_lem = refl;
      stays = λ h. absurd (cc h);
      same_id = refl;
      same_count = refl;
    })
    go cancelled e = rw e (record {
      leaves_lem = refl;
      calls_lem = refl;
      stays = λ h. absurd (cc h);
      same_id = refl;
      same_count = refl;
    })
    go dead e = rw e (record {
      leaves_lem = refl;
      calls_lem = refl;
      stays = λ h. (refl, refl);
      same_id = refl;
      same_count = refl;
    })

-- The timers that stay are those that do not leave, and they are as they were.
keep-marked :
    (now : Timeval) (ts : List Timer)
    → keep (λ t. not (reapable t)) (map (marked now) ts) ≡ keep (λ t. not (leaves now t)) ts
keep-marked now [] = refl
keep-marked now (t ∷ ts) = elim (Bool-cases (leaves now t)) [
  | inl e ↦ rw (k.leaves_lem, e) (keep-marked now ts)
  | inr e ↦ rw (k.leaves_lem, e) (ap₂ ◌∷◌ ((k.stays e).0) (keep-marked now ts))
]
  where
    k : Marked now t
    k = marked_lem now t

-- The calls that the others make.
calls-marked :
    (now : Timeval) (ts : List Timer)
    → map (λ t. t.id) (keep calls (keep reapable (map (marked now) ts)))
      ≡ map (λ t. t.id) (keep (λ t. due now t && t.callback) ts)
calls-marked now [] = refl
calls-marked now (t ∷ ts) = elim (Bool-cases (leaves now t)) [
  | inl e ↦
      rw (k.leaves_lem, e)
        (elim (Bool-cases (due now t && t.callback)) [
          | inl c ↦ rw (k.calls_lem, c) (ap₂ ◌∷◌ k.same_id (calls-marked now ts))
          | inr c ↦ rw (k.calls_lem, c) (calls-marked now ts)
        ])
  | inr e ↦ rw (k.leaves_lem, e, (k.stays e).1) (calls-marked now ts)
]
  where
    k : Marked now t
    k = marked_lem now t

abbrev AllReferenced : List Timer → Type 0
AllReferenced [] = Unit {0}
AllReferenced (t ∷ ts) = (0 < t.refcount) × AllReferenced ts

kill_lem : (t : Timer) → 0 < t.refcount → (kill t ≡ freed) ⊎ ((t' : Timer) × (kill t ≡ alive t'))
unfolding kill
kill_lem t h = go t.refcount h (record t { state = dead; callback = false })
  where
    go :
        (n : ℕ)
        → 0 < n
        → (d : Timer) → (release_to n d ≡ freed) ⊎ ((t' : Timer) × (release_to n d ≡ alive t'))
    go zero p d = absurd (omega arith)
    go (suc zero) p d = inl refl
    go (suc (suc n)) p d = inr (record d { refcount = suc n }, refl)

invoke_lem :
    (ts : List Timer)
    → AllReferenced ts
    → (left : List Timer) × (invoke ts ≡ some (map (λ t. t.id) (keep calls ts), left))
unfolding invoke
invoke_lem [] all = ([], refl)
invoke_lem (t ∷ ts) all = go (kill_lem t (all.0)) (invoke_lem ts (all.1))
  where
    noted :
        (left : List Timer)
        → note t (map (λ t'. t'.id) (keep calls ts), left)
          ≡ (map (λ t'. t'.id) (keep calls (t ∷ ts)), left)
    noted left = elim (Bool-cases (calls t)) [ inl c ↦ rw c refl | inr c ↦ rw c refl ]

    go :
        (kill t ≡ freed) ⊎ ((t' : Timer) × (kill t ≡ alive t'))
        → (left : List Timer) × (invoke ts ≡ some (map (λ t'. t'.id) (keep calls ts), left))
        → (left : List Timer) × (invoke (t ∷ ts)
            ≡ some (map (λ t'. t'.id) (keep calls (t ∷ ts)), left))
    go (inl k) (left, r) = (left, rw (k, invoke) (rw r (ap some (noted left))))
    go (inr (t', k)) (left, r) =
        (t' ∷ left, rw (k, invoke) (rw r (ap (λ q. some (leave t' q)) (noted left))))

marked-AllReferenced :
    (now : Timeval) (ts : List Timer)
    → AllAlive ts
    → AllReferenced (keep reapable (map (marked now) ts))
marked-AllReferenced now [] all = tt
marked-AllReferenced now (t ∷ ts) all = elim (Bool-cases (reapable (marked now t))) [
  | inl e ↦ rw e (
    omega (arith, all.0.referenced, (marked_lem now t).same_count),
    marked-AllReferenced now ts (all.1),
  )
  | inr e ↦ rw e (marked-AllReferenced now ts (all.1))
]

AllReferenced-reverse_aux :
    (ts us : List Timer) → AllReferenced ts → AllReferenced us → AllReferenced (reverse_aux ts us)
AllReferenced-reverse_aux [] us a b = b
AllReferenced-reverse_aux (t ∷ ts) us a b = AllReferenced-reverse_aux ts (t ∷ us) (a.1) (a.0, b)

expire-marked :
    (now : Timeval) (ts : List Timer)
    → IsNormal now
    → 0 < now.sec
    → AllAlive ts
    → expire now ts ≡ map (marked now) ts
unfolding expire
expire-marked now ts n p all =
    update_timeout-marked ts (init-IsValid now n p) all ∙ ap (λ k. map (marked k) ts) (init-now now)

fired :
    (now : Timeval) (ts : List Timer)
    → map (λ t. t.id) (keep calls (reverse_aux (keep reapable (map (marked now) ts)) []))
      ≡ map (λ t. t.id) (reverse (keep (λ t. due now t && t.callback) ts))
fired now ts =
    ap (map (λ t. t.id)) (keep-reverse_aux calls (keep reapable (map (marked now) ts)) [])
    ∙ map-reverse_aux (λ t. t.id) (keep calls (keep reapable (map (marked now) ts))) []
    ∙ ap (λ l. reverse_aux l []) (calls-marked now ts)
    ∙ sym (map-reverse_aux (λ t. t.id) (keep (λ t. due now t && t.callback) ts) [])

-- If every timer on the list has a reference and a normal time of expiry, a run of the timers
-- calls the callbacks of exactly the timers that are due and have one, from the end of the list to
-- its head, and leaves the others on the list as they were, except those that are cancelled.
pub run_lem :
    (now : Timeval) (w : Timers)
    → IsNormal now
    → 0 < now.sec
    → AllAlive w.linked
    → (w' : Timers) × (run now w
        ≡ some (map (λ t. t.id) (reverse (keep (λ t. due now t && t.callback) w.linked)), w'))
      × (w'.linked ≡ keep (λ t. not (leaves now t)) w.linked)
unfolding run
run_lem now w n p all =
    let ts : List Timer = map (marked now) w.linked in
    let r : reap (expire now w.linked) []
        ≡ (keep (λ t. not (reapable t)) ts, reverse_aux (keep reapable ts) []) =
      ap (λ l. reap l []) (expire-marked now w.linked n p all) ∙ reap-keep ts [] in
    let (left, i) = invoke_lem (reverse_aux (keep reapable ts) []) (
      AllReferenced-reverse_aux (keep reapable ts) [] (marked-AllReferenced now w.linked all) tt) in
    (
      record w { linked = keep (λ t. not (reapable t)) ts; held = left ++ w.held },
      rw (r, i)
          (ap
            (λ ids.
              some
                (ids, record w { linked = keep (λ t. not (reapable t)) ts; held = left ++ w.held }))
            (fired now w.linked)),
      keep-marked now w.linked,
    )
