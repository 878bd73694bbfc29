-- ===== src/Timeout/Earliest.antt =====
-- `twopence_timeout_update` of library/utils.c against its purpose: the wait of a poll ends at the
-- earliest of the deadlines.
use mathlib.Core.Option
use twopence.Prelude.{
  ℕ, ◌+◌, ◌-◌, ◌*◌, ◌/◌, ◌≤◌, ◌<◌, ◌≡◌, refl, sym, ap, ◌∙◌, true, false, Option, none, some, List,
  [], ◌∷◌, ltb, leb, ◌==◌, if◌then◌else◌, arith, ◌↔◌,
}
use twopence.Timeout.{
  Timeval, is_set, before, reached, sub, add, Timeout, init, update, msec, update_all,
}

-- Microseconds.
abbrev pub micros : Timeval → ℕ
micros tv = tv.sec * 1000000 + tv.usec

abbrev pub IsNormal : Timeval → Type 0
IsNormal tv = tv.usec < 1000000

abbrev pub AllNormal : List Timeval → Type 0
AllNormal [] = Unit {0}
AllNormal (d ∷ ds) = IsNormal d × AllNormal ds

-- The lesser of two times that there may be.
abbrev pub sooner : Option ℕ → Option ℕ → Option ℕ
sooner none b = b
sooner (some a) none = some a
sooner (some a) (some b) = some (if leb a b then a else b)

-- When the wait for a deadline ends: not at all without one, at once when it has passed.
abbrev pub ends : ℕ → Timeval → Option ℕ
ends now d = if d.sec == 0 then none else some (if leb (micros d) now then now else micros d)

abbrev pub earliest : ℕ → List Timeval → Option ℕ
earliest now [] = none
earliest now (d ∷ ds) = sooner (ends now d) (earliest now ds)

-- The end that a timeout has.
abbrev pub end : Timeout → Option ℕ
end tmo = if is_set tmo.until then some (micros tmo.until) else none

pub record IsValid (tmo : Timeout) : Type 0 where
  pub now : IsNormal tmo.now
  pub positive : 0 < tmo.now.sec
  pub until : IsNormal tmo.until
  pub later : is_set tmo.until ≡ true → micros tmo.now ≤ micros tmo.until

pub before_lem : (a b : Timeval) → IsNormal a → IsNormal b → before a b ≡ ltb (micros a) (micros b)
unfolding before
before_lem a b na nb = ground arith

pub reached_lem :
    (a b : Timeval) → IsNormal a → IsNormal b → reached a b ≡ leb (micros b) (micros a)
unfolding reached
reached_lem a b na nb = ground arith

pub sub_lem :
    (a b : Timeval)
    → IsNormal a
    → IsNormal b
    → micros b ≤ micros a
    → (micros (sub a b) ≡ micros a - micros b) × IsNormal (sub a b)
unfolding sub
sub_lem a b na nb h = ground arith

pub add_lem :
    (a b : Timeval)
    → IsNormal a
    → IsNormal b
    → (micros (add a b) ≡ micros a + micros b) × IsNormal (add a b)
unfolding add
add_lem a b na nb = ground arith

pub update-IsValid :
    {tmo : Timeout} (d : Timeval) → IsNormal d → IsValid tmo → IsValid (update tmo d).1
unfolding update is_set
update-IsValid {tmo} d nd v = ground (arith, reached_lem tmo.now d v.now nd, v.later)

pub update-now : (tmo : Timeout) (d : Timeval) → (update tmo d).1.now ≡ tmo.now
unfolding update
update-now tmo d = ground arith

end-update :
    {tmo : Timeout} (d : Timeval)
    → IsNormal d
    → IsValid tmo
    → end (update tmo d).1 ≡ sooner (end tmo) (ends (micros tmo.now) d)
unfolding update is_set
end-update {tmo} d nd v =
    ground (arith, before_lem d tmo.until nd v.until, reached_lem tmo.now d v.now nd, v.later)

sooner_assoc : (a b c : Option ℕ) → sooner (sooner a b) c ≡ sooner a (sooner b c)
sooner_assoc none b c = refl
sooner_assoc (some a) none c = refl
sooner_assoc (some a) (some b) none = refl
sooner_assoc (some a) (some b) (some c) = ground arith

sooner-none : (a : Option ℕ) → sooner a none ≡ a
sooner-none none = refl
sooner-none (some a) = refl

update_all-IsValid :
    (ds : List Timeval) {tmo : Timeout} → AllNormal ds → IsValid tmo → IsValid (update_all tmo ds)
unfolding update_all
update_all-IsValid [] n v = v
update_all-IsValid (d ∷ ds) n v = update_all-IsValid ds n.1 (update-IsValid d n.0 v)

update_all-now : (tmo : Timeout) (ds : List Timeval) → (update_all tmo ds).now ≡ tmo.now
unfolding update_all
update_all-now tmo [] = refl
update_all-now tmo (d ∷ ds) = update_all-now (update tmo d).1 ds ∙ update-now tmo d

end-update_all :
    (ds : List Timeval) {tmo : Timeout}
    → AllNormal ds
    → IsValid tmo
    → end (update_all tmo ds) ≡ sooner (end tmo) (earliest (micros tmo.now) ds)
unfolding update_all
end-update_all [] {tmo} n v = sym (sooner-none (end tmo))
end-update_all (d ∷ ds) {tmo} n v =
    end-update_all ds n.1 (update-IsValid d n.0 v)
    ∙ ap (λ k. sooner (end (update tmo d).1) (earliest (micros k) ds)) (update-now tmo d)
    ∙ ap (λ o. sooner o (earliest (micros tmo.now) ds)) (end-update d n.0 v)
    ∙ sooner_assoc (end tmo) (ends (micros tmo.now) d) (earliest (micros tmo.now) ds)

pub init-IsValid : (now : Timeval) → IsNormal now → 0 < now.sec → IsValid (init now)
unfolding init is_set
init-IsValid now n p = record {
  now = n;
  positive = p;
  until = omega arith;
  later = λ e. absurd (cc e);
}

msec-end :
    {tmo : Timeout}
    → IsValid tmo
    → msec tmo ≡ Option.map (λ m. (m - micros tmo.now) / 1000) (end tmo)
unfolding msec
msec-end {tmo} v = ground (arith, v.later, sub_lem tmo.until tmo.now v.until v.now)

init-end : (now : Timeval) → end (init now) ≡ none
unfolding init is_set
init-end now = refl

pub init-now : (now : Timeval) → (init now).now ≡ now
unfolding init
init-now now = refl

-- After any sequence of deadlines with normal times, the timeout in milliseconds is the time from
-- now to the earliest of the deadlines that are set, rounded down, 0 if one has passed, and -1 if
-- none is set.
pub msec-earliest :
    (now : Timeval) (ds : List Timeval)
    → IsNormal now
    → 0 < now.sec
    → AllNormal ds
    → msec (update_all (init now) ds)
      ≡ Option.map (λ m. (m - micros now) / 1000) (earliest (micros now) ds)
msec-earliest now ds n p all =
    let v : IsValid (init now) = init-IsValid now n p in
    msec-end (update_all-IsValid ds all v)
    ∙ ap (λ o. Option.map (λ m. (m - micros (update_all (init now) ds).now) / 1000) o)
        (end-update_all ds all v
          ∙ ap (λ o. sooner o (earliest (micros (init now).now) ds)) (init-end now))
    ∙ ap (λ k. Option.map (λ m. (m - micros k) / 1000) (earliest (micros (init now).now) ds))
        (update_all-now (init now) ds ∙ init-now now)
    ∙ ap (λ k. Option.map (λ m. (m - micros now) / 1000) (earliest (micros k) ds)) (init-now now)

-- On a valid timeout an update returns false exactly if the deadline is set and not after the
-- current time.
pub update-expired :
    {tmo : Timeout} (d : Timeval)
    → IsNormal d
    → IsValid tmo
    → ((update tmo d).0 ≡ false) ↔ ((0 < d.sec) × (micros d ≤ micros tmo.now))
unfolding update
update-expired {tmo} d nd v = (
  λ e. ground (arith, reached_lem tmo.now d v.now nd),
  λ h. ground (arith, reached_lem tmo.now d v.now nd),
)
