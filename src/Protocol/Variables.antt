-- ===== src/Protocol/Variables.antt =====
-- The environment in a command packet of library/protocol.c: how the receiver reads the variables.
use twopence.Prelude.{
  ℕ, zero, suc, ◌+◌, ◌≤◌, ◌<◌, ◌≡◌, refl, sym, ap, ◌∙◌, none, List, [], ◌∷◌, ◌++◌, length, take,
  drop, arith, length-append, append_assoc, append-nil, take-all, take-length-add, drop-length-add,
  length-drop, lt→ltb, ap₂,
}
use twopence.Buffer.{Buf, gets, head_mem}
use twopence.Buffer.Bounds.{IsReadable, count_lem}
use twopence.Buffer.Contents.{contents, length-contents}
use twopence.Buffer.Strings.{IsText}
use twopence.Env
use twopence.Env.{Env, equals}
use twopence.Env.Lookup.{IsWord}
use twopence.Env.Merge.{IsEntry, entry, name_length_lem}
use twopence.Protocol.Dissect.{decode_string, accept_var, read_env}
use twopence.Protocol.Encode.{env_bytes}
use twopence.Protocol.Decode.{decode_string-Decodes}

-- A variable that goes through `setenv` unchanged: a name, `=` and a value, with no NUL, and short
-- enough for the buffer of 1024 bytes.
pub record IsSendable (var : List ℕ) : Type 0 where
  pub entry : IsEntry var
  pub text : IsText var
  pub short : length var ≤ 1023

abbrev pub AllSendable : Env → Type 0
AllSendable [] = Unit {0}
AllSendable (var ∷ env) = IsSendable var × AllSendable env

accept_whole :
    (env : Env) (name v : List ℕ)
    → IsWord name
    → length (name ++ equals ∷ v) ≤ 1023
    → accept_var env (name ++ equals ∷ v) ≡ env ++ (name ++ equals ∷ v) ∷ []
unfolding accept_var Env.set Env.append
accept_whole env name v w h =
    let lt : length name < length (name ++ equals ∷ v) =
      omega (arith, length-append name (equals ∷ v)) in
    rw (name_length_lem name v w, lt→ltb (length name) (length (name ++ equals ∷ v)) lt)
      (ap (λ l. env ++ l ∷ []) parts)
  where
    front : take (length name) (name ++ equals ∷ v) ≡ name
    front = take-length-add name (equals ∷ v) (length name) 0 (omega arith) ∙ append-nil name

    back : drop (length name + 1) (name ++ equals ∷ v) ≡ v
    back = drop-length-add name (equals ∷ v) (length name + 1) 1 refl

    parts :
        take 1023 (
          take (length name) (name ++ equals ∷ v)
          ++ equals ∷ drop (length name + 1) (name ++ equals ∷ v))
        ≡ name ++ equals ∷ v
    parts =
        ap₂ (λ a b. take 1023 (a ++ equals ∷ b)) front back ∙ take-all (name ++ equals ∷ v) 1023 h

accept_var-append :
    (env : Env) (var : List ℕ)
    → IsEntry var
    → length var ≤ 1023
    → accept_var env var ≡ env ++ var ∷ []
accept_var-append env var (entry name v w e) h =
    let short : length (name ++ equals ∷ v) ≤ 1023 = omega (arith, ap length e) in
    rw e (accept_whole env name v w short)

-- An empty payload holds no string.
decode_string_end : {bp : Buf} → IsReadable bp → contents bp ≡ [] → decode_string bp ≡ none
unfolding decode_string gets
decode_string_end {bp} v e = ground (arith, count_lem v, length-contents v, ap length e)

-- The loop reads back every variable, in order, and ends at the end of the payload.
pub read_env-append :
    (vars env : Env) (f : ℕ) (bp : Buf)
    → IsReadable bp
    → AllSendable vars
    → length vars < f
    → contents bp ≡ env_bytes vars
    → read_env f bp env ≡ env ++ vars
unfolding read_env
read_env-append vars env zero bp v all h e = absurd (omega arith)
read_env-append [] env (suc f) bp v all h e =
    rw (decode_string_end v e, read_env) (sym (append-nil env))
read_env-append (var ∷ vars) env (suc f) bp v all h e =
    let (bp', read, left) = decode_string-Decodes var (env_bytes vars) v all.0.text e in
    rw (read, read_env)
      (rw (accept_var-append env var all.0.entry all.0.short) (
        read_env-append vars (env ++ var ∷ []) f bp' left.readable all.1 (omega arith) left.bytes
        ∙ append_assoc env (var ∷ []) vars))

length-env_bytes : (env : Env) → length env ≤ length (env_bytes env)
length-env_bytes [] = omega arith
length-env_bytes (var ∷ env) = omega (
  arith,
  length-env_bytes env,
  length-append (var ++ 0 ∷ []) (env_bytes env),
  length-append var (0 ∷ []),
)

-- The variables that are left fit the memory, so the fuel of the loop is enough.
pub fuel_enough :
    {bp : Buf} (env : Env)
    → IsReadable bp
    → contents bp ≡ env_bytes env
    → length env < suc (length (head_mem bp))
fuel_enough {bp} env v e =
    omega (arith, length-env_bytes env, length-contents v, ap length e, length-drop bp.head bp.base)
