-- ===== src/Env/Merge.antt =====
-- `twopence_env_set` and `twopence_env_merge_inferior` of library/twopence.c: which value a name has
-- afterwards.
use twopence.Prelude.{
  ℕ, suc, ◌+◌, ◌≤◌, ◌≡◌, ◌≢◌, refl, sym, ap, ◌∙◌, Bool, true, false, Option, none, some, List, [],
  ◌∷◌, ◌++◌, length, take, arith, if◌then◌else◌, take-all, length-append,
}
use twopence.Env.{
  Env, equals, same, strncmp_eq, append, get, set, name_length, has_name, merge_inferior,
}
use twopence.Env.Lookup.{IsWord, strip, lookup, get-lookup}
use twopence.Env.Unset.{strip_unique}

-- The first of two values that there is.
abbrev pub or_else : Option (List ℕ) → Option (List ℕ) → Option (List ℕ)
or_else none b = b
or_else (some a) b = some a

strip_self : (name v : List ℕ) → strip name (name ++ equals ∷ v) ≡ some v
unfolding strip
strip_self [] v = refl
strip_self (c ∷ name) v = ground (arith, strip_self name v)

lookup-append :
    (name : List ℕ) (env : Env) (var : List ℕ)
    → lookup name (append env var) ≡ or_else (lookup name env) (strip name var)
unfolding lookup append
lookup-append name [] var = ground arith
lookup-append name (e ∷ env) var = ground (arith, lookup-append name env var)

-- Set gives a value to a name that has none, if the entry fits the buffer of 1023 bytes.
pub get-set_new :
    (env : Env) (name v : List ℕ)
    → IsWord name
    → name ≢ []
    → get env name ≡ none
    → length name + 1 + length v ≤ 1023
    → get (set env name (some v)) name ≡ some v
unfolding set
get-set_new env name v w h e fits =
    let whole : take 1023 (name ++ equals ∷ v) ≡ name ++ equals ∷ v =
      take-all (name ++ equals ∷ v) 1023 (omega (arith, length-append name (equals ∷ v))) in
    rw whole (
      get-lookup (append env (name ++ equals ∷ v)) name w h
      ∙ lookup-append name env (name ++ equals ∷ v)
      ∙ ground (arith, get-lookup env name w h, strip_self name v))

-- Set does not change the value that a name has: the new entry stands behind the old one, and a
-- look-up takes the first.
pub get-set_again :
    (env : Env) (name old v : List ℕ)
    → IsWord name
    → name ≢ []
    → get env name ≡ some old
    → get (set env name (some v)) name ≡ some old
unfolding set
get-set_again env name old v w h e =
    get-lookup (append env (take 1023 (name ++ equals ∷ v))) name w h
    ∙ lookup-append name env (take 1023 (name ++ equals ∷ v))
    ∙ ground (arith, get-lookup env name w h)

-- An entry "name=value".
pub data IsEntry (var : List ℕ) : Type 0 where
  entry : (name v : List ℕ) → IsWord name → var ≡ name ++ equals ∷ v → IsEntry var

abbrev pub AllEntries : Env → Type 0
AllEntries [] = Unit {0}
AllEntries (var ∷ env) = IsEntry var × AllEntries env

pub name_length_lem :
    (name v : List ℕ) → IsWord name → name_length (name ++ equals ∷ v) ≡ length name
unfolding name_length
name_length_lem [] v w = refl
name_length_lem (c ∷ name) v w = ground (arith, w.1, name_length_lem name v w.2)

abbrev is_some : Option (List ℕ) → Bool
is_some none = false
is_some (some v) = true

strncmp_eq-strip :
    (e name v : List ℕ)
    → IsWord name
    → strncmp_eq e (name ++ equals ∷ v) (suc (length name)) ≡ is_some (strip name e)
unfolding strncmp_eq strip same
strncmp_eq-strip [] [] v w = refl
strncmp_eq-strip (x ∷ e) [] v w = ground arith
strncmp_eq-strip [] (c ∷ name) v w = ground (arith, w.0)
strncmp_eq-strip (x ∷ e) (c ∷ name) v w = ground (arith, strncmp_eq-strip e name v w.2)

has_name-lookup :
    (env : Env) (name v : List ℕ)
    → IsWord name
    → has_name env (name ++ equals ∷ v) (suc (length name)) ≡ is_some (lookup name env)
unfolding has_name lookup
has_name-lookup [] name v w = refl
has_name-lookup (e ∷ env) name v w =
    ground (arith, has_name-lookup env name v w, strncmp_eq-strip e name v w)

-- One round of the merge.
abbrev merged : Env → List ℕ → Env
merged env var = if has_name env var (name_length var + 1) then env else append env var

has_name-entry :
    (env : Env) (name v : List ℕ)
    → IsWord name
    → has_name env (name ++ equals ∷ v) (name_length (name ++ equals ∷ v) + 1)
      ≡ is_some (lookup name env)
has_name-entry env name v w =
    let e : name_length (name ++ equals ∷ v) + 1 ≡ suc (length name) =
      omega (arith, name_length_lem name v w) in
    rw e (has_name-lookup env name v w)

or_else-none : (o : Option (List ℕ)) → o ≡ or_else o none
or_else-none none = refl
or_else-none (some v) = refl

-- A name that the environment has keeps its value when an entry of that name is passed over.
passed_over :
    (env : Env) (other name v x : List ℕ) (o o' : Option (List ℕ))
    → IsWord other
    → IsWord name
    → lookup name env ≡ some x
    → lookup other env ≡ o
    → strip other (name ++ equals ∷ v) ≡ o'
    → o ≡ or_else o o'
passed_over env other name v x o none w' w e eo es = or_else-none o
passed_over env other name v x (some y) (some v') w' w e eo es = refl
passed_over env other name v x none (some v') w' w e eo es =
    let same_name : other ≡ name =
      strip_unique other name (name ++ equals ∷ v) v' v w' w es (strip_self name v) in
    cc (e, eo, ap (λ n. lookup n env) same_name)

lookup-merged :
    (env : Env) (var other : List ℕ)
    → IsWord other
    → IsEntry var
    → lookup other (merged env var) ≡ or_else (lookup other env) (strip other var)
lookup-merged env var other w' (entry name v w e) = rw e (go (lookup name env) refl)
  where
    go :
        (o : Option (List ℕ))
        → lookup name env ≡ o
        → lookup other (merged env (name ++ equals ∷ v))
          ≡ or_else (lookup other env) (strip other (name ++ equals ∷ v))
    go none eo =
        let test : has_name env (name ++ equals ∷ v) (name_length (name ++ equals ∷ v) + 1)
            ≡ false =
          has_name-entry env name v w ∙ ap is_some eo in
        rw test (lookup-append other env (name ++ equals ∷ v))
    go (some x) eo =
        let test : has_name env (name ++ equals ∷ v) (name_length (name ++ equals ∷ v) + 1) ≡ true =
          has_name-entry env name v w ∙ ap is_some eo in
        rw test (passed_over env other name v x _ _ w' w eo refl refl)

or_else_assoc : (a b c : Option (List ℕ)) → or_else (or_else a b) c ≡ or_else a (or_else b c)
or_else_assoc none b c = refl
or_else_assoc (some a) b c = refl

lookup-cons :
    (name var : List ℕ) (env : Env)
    → lookup name (var ∷ env) ≡ or_else (strip name var) (lookup name env)
unfolding lookup
lookup-cons name var env = ground arith

lookup-merge :
    (env defaults : Env) (name : List ℕ)
    → IsWord name
    → AllEntries defaults
    → lookup name (merge_inferior env defaults) ≡ or_else (lookup name env) (lookup name defaults)
unfolding merge_inferior
lookup-merge env [] name w all = unfold lookup in or_else-none (lookup name env)
lookup-merge env (var ∷ defaults) name w all =
    lookup-merge (merged env var) defaults name w all.1
    ∙ ap (λ o. or_else o (lookup name defaults)) (lookup-merged env var name w all.0)
    ∙ or_else_assoc (lookup name env) (strip name var) (lookup name defaults)
    ∙ ap (or_else (lookup name env)) (sym (lookup-cons name var defaults))

-- After a merge with default variables of the form name=value, each name has the value that it had
-- before, and the default where it had none.
pub get-merge_inferior :
    (env defaults : Env) (name : List ℕ)
    → IsWord name
    → name ≢ []
    → AllEntries defaults
    → get (merge_inferior env defaults) name ≡ or_else (get env name) (get defaults name)
get-merge_inferior env defaults name w h all =
    rw
      (
        get-lookup (merge_inferior env defaults) name w h,
        get-lookup env name w h,
        get-lookup defaults name w h,
      )
      (lookup-merge env defaults name w all)
