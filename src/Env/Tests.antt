-- ===== src/Env/Tests.antt =====
-- The environment functions of library/twopence.c on concrete lists, and the theorems applied.
use twopence.Prelude.{ℕ, ◌≡◌, refl, none, some, List, [], ◌∷◌, ◌++◌, arith}
use twopence.Env.{Env, get, set, unset, merge_inferior}
use twopence.Env.Lookup.{IsWord}
use twopence.Env.Unset.{unset_lem}
use twopence.Env.Merge.{entry, or_else, get-set_again, get-merge_inferior}

-- "A", "B"; "A=1", "AB=2", "A=3"; "B=4", "A=5"
abbrev a : List ℕ
a = b'A' ∷ []

abbrev b : List ℕ
b = b'B' ∷ []

abbrev entry_a : ℕ → List ℕ
entry_a v = b'A' ∷ b'=' ∷ v ∷ []

abbrev entry_b : ℕ → List ℕ
entry_b v = b'B' ∷ b'=' ∷ v ∷ []

abbrev env : Env
env = entry_a b'1' ∷ (b'A' ∷ b'B' ∷ b'=' ∷ b'2' ∷ []) ∷ entry_a b'3' ∷ []

abbrev defaults : Env
defaults = entry_b b'4' ∷ entry_a b'5' ∷ []

a-IsWord : IsWord a
a-IsWord = (omega arith, omega arith, tt)

b-IsWord : IsWord b
b-IsWord = (omega arith, omega arith, tt)

get-env : (get env a ≡ some (b'1' ∷ [])) × (get env b ≡ none)
unfolding get
get-env = (refl, refl)

unset-env : unset env a ≡ (b'A' ∷ b'B' ∷ b'=' ∷ b'2' ∷ []) ∷ []
unfolding unset
unset-env = refl

merge_inferior-env : merge_inferior env defaults ≡ env ++ entry_b b'4' ∷ []
unfolding merge_inferior
merge_inferior-env = refl

get-set_again_example : get (set env a (some (b'9' ∷ []))) a ≡ some (b'1' ∷ [])
get-set_again_example = get-set_again env a (b'1' ∷ []) (b'9' ∷ []) a-IsWord (λ e. cc e) (get-env.0)

unset_lem_example : (get (unset env a) a ≡ none) × (get (unset env a) b ≡ get env b)
unset_lem_example = unset_lem env a b a-IsWord b-IsWord (λ e. cc e) (λ e. cc e) (λ e. ground arith)

get-merge_inferior_example :
    get (merge_inferior env defaults) a ≡ or_else (get env a) (get defaults a)
get-merge_inferior_example =
    get-merge_inferior env defaults a a-IsWord (λ e. cc e)
      (entry b (b'4' ∷ []) b-IsWord refl, (entry a (b'5' ∷ []) a-IsWord refl, tt))
