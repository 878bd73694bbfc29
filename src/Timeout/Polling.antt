-- ===== src/Timeout/Polling.antt =====
-- `twopence_pollinfo_update` of library/utils.c: the array of descriptors is never written past its end.
use twopence.Prelude.{
  ℕ, ◌≤◌, ◌<◌, ◌≡◌, refl, ◌∙◌, Option, none, some, [], ◌∷◌, ◌++◌, length, length-append, leb, arith,
  Bool-cases, inl, inr,
}
use twopence.Timeout.{Timeval, Pollfd, Pollinfo, update, pollinfo_update, add_pollfd}

-- The entries written so far fit the array, and are counted.
pub record IsPolling (pinfo : Pollinfo) : Type 0 where
  pub bounded : pinfo.num_fds ≤ pinfo.max_fds
  pub written : length pinfo.pfd ≡ pinfo.num_fds

-- Either NULL and no new entry, or the new entry, at an index within the array.
abbrev pub Answer : Pollinfo → Pollfd → Option ℕ × Pollinfo → Type 0
Answer pinfo entry (none, pinfo') = pinfo'.pfd ≡ pinfo.pfd
Answer pinfo entry (some i, pinfo') =
    (i < pinfo.max_fds) × (length pinfo.pfd ≡ i) × (pinfo'.pfd ≡ pinfo.pfd ++ entry ∷ [])

add_pollfd-IsPolling :
    {pinfo : Pollinfo} (fd events : ℕ)
    → IsPolling pinfo
    → IsPolling (add_pollfd pinfo fd events).1
      × Answer pinfo (record { fd = fd; events = events }) (add_pollfd pinfo fd events)
unfolding add_pollfd
add_pollfd-IsPolling {pinfo} fd events v = elim (Bool-cases (leb pinfo.max_fds pinfo.num_fds)) [
  | inl e ↦ rw e (v, refl)
  | inr e ↦ rw e (
    record {
      bounded = ground arith;
      written =
          length-append pinfo.pfd (record { fd = fd; events = events } ∷ [])
          ∙ omega (arith, v.written);
    },
    (ground arith, v.written, refl),
  )
]

-- Adding a descriptor keeps the entries of the array counted and within its bounds: either NULL is
-- returned and no entry added, or the new entry stands behind the others at the returned index,
-- below the size of the array.
pub pollinfo_update-IsPolling :
    {pinfo : Pollinfo} (fd events : ℕ) (deadline : Option Timeval)
    → IsPolling pinfo
    → IsPolling (pollinfo_update pinfo fd events deadline).1
      × Answer pinfo
          (record { fd = fd; events = events })
          (pollinfo_update pinfo fd events deadline)
unfolding pollinfo_update
pollinfo_update-IsPolling fd events none v = add_pollfd-IsPolling fd events v
pollinfo_update-IsPolling {pinfo} fd events (some d) v =
    elim (Bool-cases (update pinfo.timeout d).0) [
      | inl e ↦
          rw e
            (add_pollfd-IsPolling fd events (record { bounded = v.bounded; written = v.written }))
      | inr e ↦ rw e (record { bounded = v.bounded; written = v.written }, refl)
    ]
