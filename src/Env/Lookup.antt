-- ===== src/Env/Lookup.antt =====
-- What a name stands for in an environment of library/twopence.c, and that `__twopence_env_get` finds it.
use twopence.Prelude.{
  ℕ, suc, ◌+◌, ◌≡◌, ◌≢◌, refl, sym, ap, true, false, Option, none, some, List, [], ◌∷◌, length,
  drop, arith, ◌==◌, if◌then◌else◌, Bool-cases, inl, inr,
}
use twopence.Env.{Env, equals, same, strncmp_eq, defines, find_from, value, get, erase_at}

-- A name that a variable can have: not empty, with no `=` and no NUL.
abbrev pub IsWord : List ℕ → Type 0
IsWord [] = Unit {0}
IsWord (c ∷ s) = (c ≢ 0) × (c ≢ equals) × IsWord s

pub same_self : (xs : List ℕ) → same xs xs ≡ true
unfolding same
same_self [] = refl
same_self (x ∷ xs) = ground (arith, same_self xs)

pub same→eq : (xs ys : List ℕ) → same xs ys ≡ true → xs ≡ ys
unfolding same
same→eq [] [] h = refl
same→eq [] (y ∷ ys) h = absurd (cc h)
same→eq (x ∷ xs) [] h = absurd (cc h)
same→eq (x ∷ xs) (y ∷ ys) h = ground (arith, same→eq xs ys)

-- The text behind "name=", if the entry begins so.
unfoldable pub strip : List ℕ → List ℕ → Option (List ℕ)
strip [] [] = none
strip [] (c ∷ var) = if c == equals then some var else none
strip (n ∷ name) [] = none
strip (n ∷ name) (c ∷ var) = if c == n then strip name var else none

-- The code's test and its pointer arithmetic take exactly that text.
defines-strip :
    (name var : List ℕ)
    → IsWord name
    → (if defines name var then some (drop (length name + 1) var) else none) ≡ strip name var
unfolding defines strncmp_eq same strip
defines-strip [] [] w = ground arith
defines-strip [] (c ∷ var) w = refl
defines-strip (n ∷ name) [] w = ground (arith, w.0)
defines-strip (n ∷ name) (c ∷ var) w = ground (arith, defines-strip name var w.2)

-- The value that the first entry of that name has.
unfoldable pub lookup : List ℕ → Env → Option (List ℕ)
unfolding strip
lookup name [] = none
lookup name (var ∷ env) = elim (strip name var) [ none ↦ lookup name env | some v ↦ some v ]

-- The entries of other names.
unfoldable pub others : List ℕ → Env → Env
unfolding strip
others name [] = []
others name (var ∷ env) = elim (strip name var) [
  | none ↦ var ∷ others name env
  | some v ↦ others name env
]

-- Where the scan stops, counted from the start of the list.
abbrev pub Located : List ℕ → Env → ℕ → Option (ℕ × List ℕ) → Type 0
Located name env i none = (lookup name env ≡ none) × (others name env ≡ env)
Located name env i (some (pos, v)) =
    (k : ℕ) × (pos ≡ k + i)
    × (lookup name env ≡ some v)
    × (others name (erase_at env k) ≡ others name env)
    × (length env ≡ suc (length (erase_at env k)))

Located-cons :
    (name var : List ℕ) (env : Env) (i : ℕ) (o : Option (ℕ × List ℕ))
    → strip name var ≡ none
    → Located name env (suc i) o
    → Located name (var ∷ env) i o
unfolding lookup others erase_at
Located-cons name var env i none e (a, b) = ground (arith, e, a, b)
Located-cons name var env i (some (pos, v)) e (k, a, b, c, d) =
    (suc k, omega arith, ground (arith, e, b), ground (arith, e, c), ap suc d)

strip_hit :
    (name var : List ℕ)
    → IsWord name
    → defines name var ≡ true
    → strip name var ≡ some (drop (length name + 1) var)
strip_hit name var w h = ground (arith, defines-strip name var w)

strip_miss : (name var : List ℕ) → IsWord name → defines name var ≡ false → strip name var ≡ none
strip_miss name var w h = ground (arith, defines-strip name var w)

pub find_from-Located :
    (name : List ℕ) (env : Env) (i : ℕ) → IsWord name → Located name env i (find_from name env i)
unfolding find_from lookup others erase_at
find_from-Located name [] i w = (refl, refl)
find_from-Located name (var ∷ env) i w = elim (Bool-cases (defines name var)) [
  | inl hit ↦
      let e = strip_hit name var w hit in
      rw hit (0, omega arith, ground (arith, e), ground (arith, e), refl)
  | inr miss ↦ rw miss (
      Located-cons name var env i (find_from name env (suc i)) (strip_miss name var w miss)
        (find_from-Located name env (suc i) w))
]

-- `__twopence_env_get` finds the value of the first entry of the name.
pub get-lookup :
    (env : Env) (name : List ℕ) → IsWord name → name ≢ [] → get env name ≡ lookup name env
unfolding get
get-lookup env [] w h = absurd (h refl)
get-lookup env (c ∷ name) w h =
    value-Located (find_from (c ∷ name) env 0) (find_from-Located (c ∷ name) env 0 w)
  where
    value-Located :
        (o : Option (ℕ × List ℕ)) → Located (c ∷ name) env 0 o → value o ≡ lookup (c ∷ name) env
    value-Located none l = sym l.0
    value-Located (some (pos, v)) l = sym l.2
