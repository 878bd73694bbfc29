-- ===== src/Target/Pick.antt =====
-- Which of several strings `twopence_chat_expect` of library/twopence.c finds.
use twopence.Prelude.{
  ℕ, ◌≤◌, ◌≡◌, refl, sym, ap, ◌∙◌, ◌&&◌, ◌||◌, ◌⊎◌, inl, inr, Option, none, some, List, [], ◌∷◌,
  length, ltb, ◌==◌, if◌then◌else◌, arith, Bool-cases,
}
use twopence.Buffer.{Buf}
use twopence.Buffer.Search.{index}
use twopence.Target.{Match, candidate, better, pick}

-- The first match is no later than the second, and no shorter where it is at the same place.
abbrev pub NoWorse : Match → Match → Type 0
NoWorse m none = Unit {0}
NoWorse none (some q) = ⊥
NoWorse (some (p, s)) (some (q, t)) = (p ≤ q) × (p ≡ q → length t ≤ length s)

-- A match is an occurrence of one of the strings.
abbrev pub IsAmong : Buf → List (List ℕ) → ℕ → List ℕ → Type 0
IsAmong bp [] pos s = ⊥
IsAmong bp (t ∷ strings) pos s =
    ((t ≡ s) × (index bp (some t) ≡ some pos)) ⊎ IsAmong bp strings pos s

abbrev pub AllNoWorse : Buf → List (List ℕ) → Match → Type 0
AllNoWorse bp [] m = Unit {0}
AllNoWorse bp (t ∷ strings) m =
    NoWorse m (candidate t (index bp (some t))) × AllNoWorse bp strings m

NoWorse-refl : (m : Match) → NoWorse m m
NoWorse-refl none = tt
NoWorse-refl (some (p, s)) = (omega arith, λ e. omega arith)

NoWorse-trans : (a b c : Match) → NoWorse a b → NoWorse b c → NoWorse a c
NoWorse-trans a b none f g = tt
NoWorse-trans a none (some q) f g = absurd g
NoWorse-trans none (some p) (some q) f g = absurd f
NoWorse-trans (some (p, s)) (some (q, t)) (some (r, u)) f g =
    (omega arith, λ e. omega (arith, f.1 (omega arith), g.1 (omega arith)))

better-NoWorse : (a b : Match) → NoWorse (better a b) a × NoWorse (better a b) b
better-NoWorse none b = (tt, NoWorse-refl b)
better-NoWorse (some a) none = (NoWorse-refl (some a), tt)
better-NoWorse (some (p, s)) (some (q, t)) =
    elim (Bool-cases (ltb p q || p == q && ltb (length t) (length s))) [
      | inl h ↦ rw h ((omega arith, λ e. omega arith), (ground (arith, h), λ e. ground (arith, h)))
      | inr h ↦ rw h ((ground (arith, h), λ e. ground (arith, h)), (omega arith, λ e. omega arith))
    ]

-- A match that is found again, or is the one there was.
abbrev IsFrom : Buf → List (List ℕ) → Match → Match → Type 0
IsFrom bp strings best none = best ≡ none
IsFrom bp strings best (some (pos, s)) = IsAmong bp strings pos s ⊎ (best ≡ some (pos, s))

better-some :
    (a best : Match) (pos : ℕ) (s : List ℕ)
    → better a best ≡ some (pos, s)
    → (a ≡ some (pos, s)) ⊎ (best ≡ some (pos, s))
better-some none best pos s e = inr e
better-some (some a) none pos s e = inl e
better-some (some (p, t)) (some (q, u)) pos s e =
    elim (Bool-cases (ltb p q || p == q && ltb (length u) (length t))) [
      | inl h ↦ inl (sym (ap (λ b. if b then some (p, t) else some (q, u)) h) ∙ e)
      | inr h ↦ inr (sym (ap (λ b. if b then some (p, t) else some (q, u)) h) ∙ e)
    ]

better-none : (a best : Match) → better a best ≡ none → best ≡ none
better-none none best e = e
better-none (some a) none e = refl
better-none (some (p, t)) (some (q, u)) e =
    elim (Bool-cases (ltb p q || p == q && ltb (length u) (length t))) [
      | inl h ↦ absurd (cc (sym (ap (λ b. if b then some (p, t) else some (q, u)) h) ∙ e))
      | inr h ↦ absurd (cc (sym (ap (λ b. if b then some (p, t) else some (q, u)) h) ∙ e))
    ]

candidate-some :
    (o : Option ℕ) (t : List ℕ) (pos : ℕ) (s : List ℕ)
    → candidate t o ≡ some (pos, s)
    → (t ≡ s) × (o ≡ some pos)
candidate-some none t pos s e = absurd (cc e)
candidate-some (some at) t pos s e = (ap (string_or t) e, ap place e)
  where
    string_or : List ℕ → Match → List ℕ
    string_or d none = d
    string_or d (some (p, u)) = u

    place : Match → Option ℕ
    place none = none
    place (some (p, u)) = some p

IsFrom-next :
    (bp : Buf) (t : List ℕ) (strings : List (List ℕ)) (best m : Match)
    → IsFrom bp strings (better (candidate t (index bp (some t))) best) m
    → IsFrom bp (t ∷ strings) best m
IsFrom-next bp t strings best none e = better-none (candidate t (index bp (some t))) best e
IsFrom-next bp t strings best (some (pos, s)) (inl a) = inl (inr a)
IsFrom-next bp t strings best (some (pos, s)) (inr e) =
    elim (better-some (candidate t (index bp (some t))) best pos s e) [
      | inl here ↦ inl (inl (candidate-some (index bp (some t)) t pos s here))
      | inr there ↦ inr there
    ]

pick_lem :
    (bp : Buf) (strings : List (List ℕ)) (best : Match)
    → NoWorse (pick bp strings best) best
      × AllNoWorse bp strings (pick bp strings best)
      × IsFrom bp strings best (pick bp strings best)
unfolding pick
pick_lem bp [] none = (tt, tt, refl)
pick_lem bp [] (some (p, s)) = (NoWorse-refl (some (p, s)), tt, inr refl)
pick_lem bp (t ∷ strings) best =
    let c = candidate t (index bp (some t)) in
    let r = pick bp strings (better c best) in
    let (f, all, from) = pick_lem bp strings (better c best) in
    let (left, right) = better-NoWorse c best in
    (
      NoWorse-trans r (better c best) best f right,
      (NoWorse-trans r (better c best) c f left, all),
      IsFrom-next bp t strings best r from,
    )

-- The match that is found is that of one of the strings; where there is none, none occurs.
abbrev pub IsBest : Buf → List (List ℕ) → Match → Type 0
IsBest bp strings none = AllNoWorse bp strings none
IsBest bp strings (some (pos, s)) = IsAmong bp strings pos s × AllNoWorse bp strings (some (pos, s))

best_lem :
    (bp : Buf) (strings : List (List ℕ)) (m : Match)
    → AllNoWorse bp strings m
    → IsFrom bp strings none m
    → IsBest bp strings m
best_lem bp strings none all from = all
best_lem bp strings (some (pos, s)) all (inl a) = (a, all)
best_lem bp strings (some (pos, s)) all (inr e) = absurd (cc e)

-- Of the strings that a chat expects, the one that is found occurs, no other occurs earlier, and
-- none that occurs at the same place is longer; where none is found, none occurs. An occurrence is
-- what buf_index returns.
pub pick-IsBest : (bp : Buf) (strings : List (List ℕ)) → IsBest bp strings (pick bp strings none)
pick-IsBest bp strings =
    let (f, all, from) = pick_lem bp strings none in
    best_lem bp strings (pick bp strings none) all from
