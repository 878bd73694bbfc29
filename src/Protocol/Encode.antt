-- ===== src/Protocol/Encode.antt =====
-- The encoders of library/protocol.c, one step and in a chain: what they append.
use twopence.Prelude.{
  ℕ, ◌+◌, ◌%◌, ◌≤◌, ◌<◌, ◌≡◌, refl, sym, ap, ◌∙◌, Bool, true, false, Option, none, some, List, [],
  ◌∷◌, ◌++◌, length, u32_mod, arith, length-append, append_assoc, append-nil,
}
use twopence.Buffer.{Buf, append, puts}
use twopence.Buffer.Bounds.{IsValid}
use twopence.Buffer.Contents.{contents, append_fits, append_full}
use twopence.Buffer.Strings.{puts_full}
use twopence.Env.{Env}
use twopence.Protocol.{be32}
use twopence.Protocol.Build.{◌>>=◌, check, encode_u32, encode_string, encode_env}

-- `bp'` is `bp` with `d` appended.
pub record Wrote (bp : Buf) (d : List ℕ) (bp' : Buf) : Type 0 where
  pub valid : IsValid bp'
  pub bytes : contents bp' ≡ contents bp ++ d
  pub head : bp'.head ≡ bp.head
  pub tail : bp'.tail ≡ bp.tail + length d
  pub size : bp'.size ≡ bp.size

abbrev pub Encodes : Option Buf → Buf → List ℕ → Type 0
Encodes o bp d = (bp' : Buf) × (o ≡ some bp') × Wrote bp d bp'

-- A step and the chain behind it.
pub >>=-Encodes :
    {bp : Buf} (o : Option Buf) (f : Buf → Option Buf) (d d' : List ℕ)
    → Encodes o bp d
    → ((bp' : Buf) → Wrote bp d bp' → Encodes (f bp') bp' d')
    → Encodes (o >>= f) bp (d ++ d')
>>=-Encodes {bp} o f d d' (bp', e, w) rest = go (rest bp' w)
  where
    go : Encodes (f bp') bp' d' → Encodes (o >>= f) bp (d ++ d')
    go (bp2, e2, w2) = (
      bp2,
      rw e e2,
      record {
        valid = w2.valid;
        bytes = w2.bytes ∙ ap (λ l. l ++ d') w.bytes ∙ append_assoc (contents bp) d d';
        head = w2.head ∙ w.head;
        tail = omega (arith, w2.tail, w.tail, length-append d d');
        size = w2.size ∙ w.size;
      },
    )

append-Encodes :
    {bp : Buf} (d : List ℕ) (n : ℕ)
    → IsValid bp
    → n ≡ length d
    → bp.tail + n ≤ bp.size
    → Encodes (check (append bp d n)) bp d
append-Encodes {bp} d n v e h =
    let (done, bytes, head, tail, size, ok) = append_fits d n v e h in
    (
      (append bp d n).1,
      checked (append bp d n) done,
      record { valid = ok; bytes = bytes; head = head; tail = omega arith; size = size },
    )
  where
    checked : (r : Bool × Buf) → r.0 ≡ true → check r ≡ some r.1
    checked (true, b) t = refl
    checked (false, b) t = cc

pub encode_u32-Encodes :
    {bp : Buf} (w : ℕ)
    → IsValid bp
    → bp.tail + 4 ≤ bp.size
    → Encodes (check (encode_u32 bp w)) bp (be32 w)
unfolding encode_u32
encode_u32-Encodes w v h = append-Encodes (be32 w) 4 v refl h

pub encode_string-Encodes :
    {bp : Buf} (s : List ℕ)
    → IsValid bp
    → bp.tail + (length s + 1) ≤ bp.size
    → Encodes (check (encode_string bp (some s))) bp (s ++ 0 ∷ [])
unfolding encode_string puts
encode_string-Encodes {bp} s v h =
    let e : (length s + 1) % u32_mod ≡ length s + 1 = omega arith in
    rw e (append-Encodes (s ++ 0 ∷ []) (length s + 1) v (sym (length-append s (0 ∷ []))) h)

-- Without the room an encoder fails.
pub encode_u32_full :
    {bp : Buf} (w : ℕ) → IsValid bp → bp.size < bp.tail + 4 → check (encode_u32 bp w) ≡ none
unfolding encode_u32
encode_u32_full w v h = ap check (append_full (be32 w) 4 v h)

pub encode_string_full :
    {bp : Buf} (s : List ℕ)
    → IsValid bp
    → length s + 1 < u32_mod
    → bp.size < bp.tail + (length s + 1)
    → check (encode_string bp (some s)) ≡ none
unfolding encode_string
encode_string_full s v small h = ap check (puts_full s v small h)

-- The strings of an environment, each with its NUL.
abbrev pub env_bytes : Env → List ℕ
env_bytes [] = []
env_bytes (var ∷ env) = (var ++ 0 ∷ []) ++ env_bytes env

pub encode_env-Encodes :
    (env : Env) (bp : Buf)
    → IsValid bp
    → bp.tail + length (env_bytes env) ≤ bp.size
    → Encodes (encode_env bp env) bp (env_bytes env)
unfolding encode_env
encode_env-Encodes [] bp v h = (
  bp,
  refl,
  record {
    valid = v;
    bytes = sym (append-nil (contents bp));
    head = refl;
    tail = omega arith;
    size = refl;
  },
)
encode_env-Encodes (var ∷ env) bp v h =
    let room : bp.tail + (length var + 1 + length (env_bytes env)) ≤ bp.size =
      omega (arith, length-append (var ++ 0 ∷ []) (env_bytes env), length-append var (0 ∷ [])) in
    >>=-Encodes (check (encode_string bp (some var))) (λ bp'. encode_env bp' env) (var ++ 0 ∷ [])
      (env_bytes env) (encode_string-Encodes var v (omega arith))
      λ bp' w.
        encode_env-Encodes env bp' w.valid
          (omega (arith, w.tail, w.size, length-append var (0 ∷ [])))
