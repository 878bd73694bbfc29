-- ===== src/Env/Unset.antt =====
-- `twopence_env_unset` of library/twopence.c: its loop, and what it leaves.
use twopence.Prelude.{
  ℕ, zero, suc, ◌≤◌, ◌≡◌, ◌≢◌, refl, sym, ◌∙◌, Option, none, some, List, [], ◌∷◌, length, arith,
}
use twopence.Env.{Env, find_from, get, erase_at, unset_loop, unset}
use twopence.Env.Lookup.{IsWord, strip, lookup, others, Located, find_from-Located, get-lookup}

-- With the length of the list as fuel, the loop of `twopence_env_unset` takes every entry of the
-- name away, and no other.
unset_loop-others :
    (f : ℕ) (env : Env) (c : ℕ) (name : List ℕ)
    → IsWord (c ∷ name)
    → length env ≤ f
    → unset_loop f env (c ∷ name) ≡ others (c ∷ name) env
unfolding unset_loop others
unset_loop-others zero [] c name w h = refl
unset_loop-others zero (var ∷ env) c name w h = absurd (omega arith)
unset_loop-others (suc f) env c name w h =
    go (λ env' h'. unset_loop-others f env' c name w h') (find_from (c ∷ name) env 0) refl
      (find_from-Located (c ∷ name) env 0 w)
  where
    go :
        ((env' : Env) → length env' ≤ f → unset_loop f env' (c ∷ name) ≡ others (c ∷ name) env')
        → (o : Option (ℕ × List ℕ)) → find_from (c ∷ name) env 0 ≡ o
        → Located (c ∷ name) env 0 o
        → unset_loop (suc f) env (c ∷ name) ≡ others (c ∷ name) env
    go rec none e l = rw (e, unset_loop) (sym l.1)
    go rec (some (pos, v)) e (k, a, b, d, len) =
        let at : pos ≡ k = omega arith in
        rw (e, unset_loop) (rw at (rec (erase_at env k) (omega arith) ∙ d))

-- What `twopence_env_unset` leaves is the entries of the other names, in their order.
pub unset-others :
    (env : Env) (name : List ℕ) → IsWord name → name ≢ [] → unset env name ≡ others name env
unfolding unset
unset-others env [] w h = absurd (h refl)
unset-others env (c ∷ name) w h = unset_loop-others (length env) env c name w (omega arith)

lookup-others_self : (name : List ℕ) (env : Env) → lookup name (others name env) ≡ none
unfolding lookup others
lookup-others_self name [] = refl
lookup-others_self name (var ∷ env) = ground (arith, lookup-others_self name env)

-- An entry has one name.
pub strip_unique :
    (a b var : List ℕ) (v v' : List ℕ)
    → IsWord a
    → IsWord b
    → strip a var ≡ some v
    → strip b var ≡ some v'
    → a ≡ b
unfolding strip
strip_unique [] [] var v v' wa wb ha hb = refl
strip_unique [] (n ∷ b) [] v v' wa wb ha hb = absurd (cc hb)
strip_unique [] (n ∷ b) (x ∷ var) v v' wa wb ha hb = ground (arith, wb.1)
strip_unique (m ∷ a) b [] v v' wa wb ha hb = absurd (cc ha)
strip_unique (m ∷ a) [] (x ∷ var) v v' wa wb ha hb = ground (arith, wa.1)
strip_unique (m ∷ a) (n ∷ b) (x ∷ var) v v' wa wb ha hb =
    ground (arith, strip_unique a b var v v' wa.2 wb.2)

lookup-others_ne :
    (a b : List ℕ) (env : Env)
    → IsWord a
    → IsWord b
    → a ≢ b
    → lookup b (others a env) ≡ lookup b env
unfolding lookup others
lookup-others_ne a b [] wa wb ne = refl
lookup-others_ne a b (var ∷ env) wa wb ne =
    go (strip a var) (strip b var) refl refl (lookup-others_ne a b env wa wb ne)
  where
    go :
        (oa ob : Option (List ℕ))
        → strip a var ≡ oa
        → strip b var ≡ ob
        → lookup b (others a env) ≡ lookup b env
        → lookup b (others a (var ∷ env)) ≡ lookup b (var ∷ env)
    go none ob ea eb ih = ground (arith, ea, ih)
    go (some v) none ea eb ih = ground (arith, ea, eb, ih)
    go (some v) (some v') ea eb ih = absurd (ne (strip_unique a b var v v' wa wb ea eb))

-- After unset a name has no value, and every other name has the value that it had.
pub unset_lem :
    (env : Env) (name other : List ℕ)
    → IsWord name
    → IsWord other
    → name ≢ []
    → other ≢ []
    → name ≢ other
    → (get (unset env name) name ≡ none) × (get (unset env name) other ≡ get env other)
unset_lem env name other w w' h h' ne = rw (unset-others env name w h) (
  get-lookup (others name env) name w h ∙ lookup-others_self name env,
  get-lookup (others name env) other w' h'
      ∙ lookup-others_ne name other env w w' ne
      ∙ sym (get-lookup env other w' h'),
)
