-- ===== src/Env.antt =====
-- The environment of a command: `twopence_env_t` of library/twopence.c, the list of its
-- "name=value" strings. A C string is the list of its bytes, without the NUL.
pub mod Lookup
pub mod Unset
pub mod Merge
mod Tests
use twopence.Prelude.{
  ℕ, zero, suc, ◌+◌, Bool, true, false, ◌&&◌, Option, none, some, List, [], ◌∷◌, ◌++◌, length, take,
  drop, get_or, get_elem?, ◌==◌, if◌then◌else◌,
}

abbrev pub Env : Type 0
Env = List (List ℕ)

-- `=`
abbrev pub equals : ℕ
equals = b'='

-- Equality of two runs of bytes.
unfoldable pub same : List ℕ → List ℕ → Bool
same [] [] = true
same [] (y ∷ ys) = false
same (x ∷ xs) [] = false
same (x ∷ xs) (y ∷ ys) = x == y && same xs ys

-- `strncmp(a, b, n) == 0`: the comparison ends at the first NUL.
unfoldable pub strncmp_eq : List ℕ → List ℕ → ℕ → Bool
unfolding same
strncmp_eq a b n = same (take n (a ++ 0 ∷ [])) (take n (b ++ 0 ∷ []))

-- `__twopence_env_append`
unfoldable pub append : Env → List ℕ → Env
append env var = env ++ var ∷ []

-- The test of the loop of `__twopence_env_get`.
unfoldable pub defines : List ℕ → List ℕ → Bool
unfolding strncmp_eq
defines name var = strncmp_eq var name (length name) && get_or var (length name) 0 == equals

-- That loop from index `i` on: the position, and the text behind the `=`.
unfoldable pub find_from : List ℕ → Env → ℕ → Option (ℕ × List ℕ)
unfolding defines
find_from name [] i = none
find_from name (var ∷ env) i =
    let rest = find_from name env (suc i) in
    if defines name var then some (i, drop (length name + 1) var) else rest

-- `__twopence_env_get`
unfoldable pub find : Env → List ℕ → Option (ℕ × List ℕ)
unfolding find_from
find env [] = none
find env (c ∷ name) = find_from (c ∷ name) env 0

abbrev pub value : Option (ℕ × List ℕ) → Option (List ℕ)
value none = none
value (some (pos, v)) = some v

-- The value that a name has.
unfoldable pub get : Env → List ℕ → Option (List ℕ)
unfolding find
get env name = value (find env name)

-- The entries behind `pos` moved up by one.
unfoldable pub erase_at : Env → ℕ → Env
erase_at [] pos = []
erase_at (var ∷ env) zero = env
erase_at (var ∷ env) (suc pos) = var ∷ erase_at env pos

-- The loop of `twopence_env_unset`, on fuel: each round takes one entry away.
unfoldable pub unset_loop : ℕ → Env → List ℕ → Env
unfolding find erase_at
unset_loop zero env name = env
unset_loop (suc f) env name = elim (find env name) [
  | none ↦ env
  | some (pos, v) ↦ unset_loop f (erase_at env pos) name
]

unfoldable pub unset : Env → List ℕ → Env
unfolding unset_loop
unset env name = unset_loop (length env) env name

-- `twopence_env_set`: snprintf into 1024 bytes keeps 1023 of them. A NULL value unsets.
unfoldable pub set : Env → List ℕ → Option (List ℕ) → Env
unfolding append unset
set env name none = unset env name
set env name (some v) = append env (take 1023 (name ++ equals ∷ v))

-- `twopence_env_pass`: the value is that of `getenv`, in the caller's own environment.
unfoldable pub pass : Env → (List ℕ → Option (List ℕ)) → List ℕ → Env
unfolding set
pass env getenv name = set env name (getenv name)

-- `twopence_env_copy`, which destroys the environment first. `append_all` is its loop.
unfoldable pub append_all : Env → Env → Env
unfolding append
append_all env [] = env
append_all env (var ∷ src) = append_all (append env var) src

unfoldable pub copy : Env → Env → Env
unfolding append_all
copy env src = append_all [] src

-- `strcspn(var, "=")`
unfoldable pub name_length : List ℕ → ℕ
name_length [] = 0
name_length (c ∷ var) = if c == equals then 0 else suc (name_length var)

-- The inner loop of `twopence_env_merge_inferior`.
unfoldable pub has_name : Env → List ℕ → ℕ → Bool
unfolding strncmp_eq
has_name [] var len = false
has_name (e ∷ env) var len = if strncmp_eq e var len then true else has_name env var len

-- `twopence_env_merge_inferior`
unfoldable pub merge_inferior : Env → Env → Env
unfolding append name_length has_name
merge_inferior env [] = env
merge_inferior env (var ∷ defaults) =
    merge_inferior (if has_name env var (name_length var + 1) then env else append env var) defaults
