-- ===== src/Timer.antt =====
-- library/timer.c: the global list of timers. The list is given by its timers in order; `held` are the
-- timers off the list to which somebody keeps a reference. The time that `gettimeofday` returns is an
-- argument. A callback is known by whether it is set; what it does to timers is left out.
pub mod Expiry
pub mod Pause
mod Tests
use twopence.Prelude.{
  ℕ, zero, suc, ◌+◌, ◌*◌, ◌/◌, ◌%◌, Bool, true, false, not, ◌&&◌, ◌||◌, Option, none, some, List,
  [], ◌∷◌, ◌++◌, map, ◌==◌, if◌then◌else◌, u32_mod,
}
use twopence.Timeout.{Timeval, never, is_set, before, add, sub, Timeout, init, update}

pub data TimerState : Type 0 where
  active paused expired cancelled dead : TimerState

-- `struct twopence_timer`
pub record Timer : Type 0 where
  pub refcount : ℕ
  pub id : ℕ
  pub state : TimerState
  pub runtime : Timeval
  pub expires : Timeval
  pub callback : Bool

-- The global variables of the file.
pub record Timers : Type 0 where
  pub next_id : ℕ
  pub linked : List Timer
  pub held : List Timer

-- `twopence_timer_create` with `twopence_timer_list_insert`: the timer, and the list with it at the
-- head. none is the assertion that the time of expiry is set.
unfoldable pub create : Timeval → Timers → ℕ → Option (Timer × Timers)
create now w timeout_ms =
    let runtime : Timeval = record { sec = timeout_ms / 1000; usec = timeout_ms % 1000 * 1000 } in
    let t : Timer = record {
      refcount = 1;
      id = w.next_id;
      state = active;
      runtime = runtime;
      expires = add now runtime;
      callback = false;
    } in
    if is_set t.expires
    then some (t, record w { next_id = (w.next_id + 1) % u32_mod; linked = t ∷ w.linked })
    else none

-- `twopence_timer_pause`
unfoldable pub pause : Timeval → Timer → Timer
pause now t = elim t.state [
  | active ↦ record t {
    runtime = if before now t.expires then sub t.expires now else never;
    expires = never;
    state = paused;
  }
  | _ ↦ t
]

-- `twopence_timer_unpause`
unfoldable pub unpause : Timeval → Timer → Timer
unpause now t = elim t.state [
  | paused ↦ record t { expires = add t.runtime now; state = active }
  | _ ↦ t
]

-- `twopence_timer_remaining`, in milliseconds.
unfoldable pub remaining : Timeval → Timer → ℕ
remaining now t = elim t.state [
  | active ↦
      let delta = sub t.expires now in
      if before now t.expires then 1000 * delta.sec + delta.usec / 1000 else 0
  | _ ↦ 0
]

-- `twopence_timer_hold`: none is its assertion.
unfoldable pub hold : Timer → Option Timer
hold t = if t.refcount == 0 then none else some (record t { refcount = t.refcount + 1 })

-- What is left of a timer after a release.
pub data Released : Type 0 where
  aborted freed : Released
  alive : Timer → Released

-- `twopence_timer_release`
unfoldable pub release_to : ℕ → Timer → Released
release_to zero t = aborted
release_to (suc zero) t = freed
release_to (suc (suc n)) t = alive (record t { refcount = suc n })

unfoldable pub release : Timer → Released
unfolding release_to
release t = release_to t.refcount t

-- `twopence_timer_kill`
unfoldable pub kill : Timer → Released
unfolding release
kill t = release (record t { state = dead; callback = false })

-- `twopence_timer_cancel` of the timer with that id: it goes off the list, and keeps its count.
unfoldable pub cancel_state : Timer → Option Timer
cancel_state t = elim t.state [
  | expired ↦ none
  | dead ↦ none
  | _ ↦ some (record t { state = cancelled })
]

unfoldable pub cancel_linked : ℕ → List Timer → List Timer × List Timer
unfolding cancel_state
cancel_linked id [] = ([], [])
cancel_linked id (t ∷ ts) =
    let (rest, off) = cancel_linked id ts in
    if t.id == id
    then elim (cancel_state t) [ none ↦ (t ∷ rest, off) | some t' ↦ (rest, t' ∷ off) ]
    else (t ∷ rest, off)

unfoldable pub cancel_held : ℕ → Timer → Timer
unfolding cancel_state
cancel_held id t = if t.id == id then elim (cancel_state t) [ none ↦ t | some t' ↦ t' ] else t

unfoldable pub cancel : Timers → ℕ → Timers
unfolding cancel_linked cancel_held
cancel w id =
    let (rest, off) = cancel_linked id w.linked in
    record w { linked = rest; held = off ++ map (cancel_held id) w.held }

-- `__twopence_timer_mark_expired`
unfoldable pub mark_expired : Timer → Timer
mark_expired t = record t { state = expired; expires = never }

-- `twopence_timer_list_update_timeout`
unfoldable pub update_timer : Timeout → Timer → Timer × Timeout
unfolding mark_expired
update_timer tmo t = elim t.state [
  | active ↦
      let (ok, tmo') = update tmo t.expires in if ok then (t, tmo') else (mark_expired t, tmo')
  | _ ↦ (t, tmo)
]

unfoldable pub update_timeout : Timeout → List Timer → List Timer × Timeout
update_timeout tmo [] = ([], tmo)
update_timeout tmo (t ∷ ts) =
    let (t', tmo') = update_timer tmo t in
    let (ts', tmo2) = update_timeout tmo' ts in (t' ∷ ts', tmo2)

-- `twopence_timer_list_expire`
unfoldable pub expire : Timeval → List Timer → List Timer
expire now ts = (update_timeout (init now) ts).0

-- The test of `twopence_timer_list_reap`, and its loop: a reaped timer goes to the head of the other
-- list.
abbrev pub reapable : Timer → Bool
reapable t = elim t.state [ expired ↦ true | cancelled ↦ true | _ ↦ false ]

unfoldable pub reap : List Timer → List Timer → List Timer × List Timer
reap [] moved = ([], moved)
reap (t ∷ ts) moved =
    let gone = reap ts (t ∷ moved) in
    let (rest, moved') = reap ts moved in if reapable t then gone else (t ∷ rest, moved')

-- `twopence_timer_list_invoke`: the ids whose callbacks are called, in order, and the timers that are
-- left in memory. none is a failed assertion.
abbrev pub calls : Timer → Bool
calls t = elim t.state [ expired ↦ t.callback | _ ↦ false ]

abbrev pub note : Timer → List ℕ × List Timer → List ℕ × List Timer
note t (ids, left) = (if calls t then t.id ∷ ids else ids, left)

abbrev pub leave : Timer → List ℕ × List Timer → List ℕ × List Timer
leave t (ids, left) = (ids, t ∷ left)

abbrev pub and_then {ℓ} : {A B : Type ℓ} → Option A → (A → B) → Option B
and_then none f = none
and_then (some a) f = some (f a)

unfoldable pub invoke : List Timer → Option (List ℕ × List Timer)
invoke [] = some ([], [])
invoke (t ∷ ts) =
    let rest = invoke ts in
    elim (kill t) [
      | aborted ↦ none
      | freed ↦ and_then rest (note t)
      | alive t' ↦ and_then rest (λ r. leave t' (note t r))
    ]

-- `twopence_timers_run`. The list of the expired timers is empty after the calls, so that
-- `twopence_timer_list_destroy` finds nothing.
unfoldable pub run : Timeval → Timers → Option (List ℕ × Timers)
run now w =
    let (rest, gone) = reap (expire now w.linked) [] in
    and_then (invoke gone) (λ r. (r.0, record w { linked = rest; held = r.1 ++ w.held }))
