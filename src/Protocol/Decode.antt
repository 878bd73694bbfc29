-- ===== src/Protocol/Decode.antt =====
-- The decoders of library/protocol.c, one step and in a chain: what they take from a payload.
use twopence.Prelude.{
  ℕ, ◌+◌, ◌^◌, ◌<◌, ◌≡◌, refl, ap, ◌∙◌, Option, none, some, List, [], ◌∷◌, ◌++◌, length, drop,
  arith, append_assoc, append-nil, take-length-add, subst,
}
use twopence.Buffer.{Buf, get, gets}
use twopence.Buffer.Bounds.{IsReadable, count_lem}
use twopence.Buffer.Contents.{contents, BeginsWith, contents-BeginsWith}
use twopence.Buffer.Strings.{IsText, gets-text}
use twopence.Protocol.{be16, be32, word16, word32}
use twopence.Protocol.Frame.{word16_lem}
use twopence.Protocol.Dissect.{Decoder, ◌>>=◌, got, decode_u16, decode_u32, decode_string}

-- The payload behind what was read.
pub record Left (bp : Buf) (rest : List ℕ) (bp' : Buf) : Type 0 where
  pub readable : IsReadable bp'
  pub bytes : contents bp' ≡ rest
  pub block : bp'.base ≡ bp.base

-- The decoder reads `a`, and `rest` is left.
abbrev pub Decodes : {A : Type 0} → Option (A × Buf) → Buf → A → List ℕ → Type 0
Decodes o bp a rest = (bp' : Buf) × (o ≡ some (a, bp')) × Left bp rest bp'

pub >>=-Decodes :
    {A B : Type 0} {bp : Buf} (m : Decoder A) (f : A → Decoder B) (a : A) (b : B)
    (mid rest : List ℕ)
    → Decodes (m bp) bp a mid
    → ((bp' : Buf) → Left bp mid bp' → Decodes (f a bp') bp' b rest)
    → Decodes ((m >>= f) bp) bp b rest
>>=-Decodes {A} {B} {bp} m f a b mid rest (bp', e, l) next = go (next bp' l)
  where
    go : Decodes (f a bp') bp' b rest → Decodes ((m >>= f) bp) bp b rest
    go (bp2, e2, l2) = (
      bp2,
      step (m bp) e ∙ e2,
      record { readable = l2.readable; bytes = l2.bytes; block = l2.block ∙ l.block },
    )
      where
        step :
            (o : Option (A × Buf))
            → o ≡ some (a, bp')
            → elim o [ none ↦ none | some (a, bp1) ↦ f a bp1 ] ≡ f a bp'
        step o q = rw q

pub pure-Decodes :
    {A : Type 0} {bp : Buf} (a : A) (rest : List ℕ)
    → IsReadable bp
    → contents bp ≡ rest
    → Decodes (some (a, bp)) bp a rest
pure-Decodes {A} {bp} a rest v e = (bp, refl, record { readable = v; bytes = e; block = refl })

-- `n` bytes by `twopence_buf_get`.
pub get-Decodes :
    {A : Type 0} {bp : Buf} (f : List ℕ → A) (d rest : List ℕ) (n : ℕ)
    → IsReadable bp
    → n ≡ length d
    → contents bp ≡ d ++ rest
    → Decodes (got f (get bp n)) bp (f d) rest
unfolding get
get-Decodes {A} {bp} f d rest n v en e =
    let w : BeginsWith bp d rest (bp.head + n) =
      contents-BeginsWith d rest (bp.head + n) v e (omega arith) in
    (
      record bp { head = bp.head + n },
      ap (got f) (taken w),
      record {
        readable = record { ordered = w.inside; readable = v.readable; narrow = v.narrow };
        bytes = w.behind;
        block = refl;
      },
    )
  where
    taken :
        BeginsWith bp d rest (bp.head + n) → get bp n ≡ (some d, record bp { head = bp.head + n })
    taken w = ground (
      arith,
      count_lem v,
      w.inside,
      w.memory,
      take-length-add d (drop (bp.head + n) bp.base) n 0,
      append-nil d,
    )

word32_lem : (w : ℕ) → w < 2 ^ 32 → word32 (be32 w) 0 ≡ w
word32_lem w h = omega arith

pub decode_u32-Decodes :
    {bp : Buf} (w : ℕ) (rest : List ℕ)
    → IsReadable bp
    → w < 2 ^ 32
    → contents bp ≡ be32 w ++ rest
    → Decodes (decode_u32 bp) bp w rest
unfolding decode_u32
decode_u32-Decodes {bp} w rest v h e =
    subst (λ x. Decodes (decode_u32 bp) bp x rest) (word32_lem w h)
      (get-Decodes (λ d. word32 d 0) (be32 w) rest 4 v refl e)

pub decode_u16-Decodes :
    {bp : Buf} (w : ℕ) (rest : List ℕ)
    → IsReadable bp
    → w < 65536
    → contents bp ≡ be16 w ++ rest
    → Decodes (decode_u16 bp) bp w rest
unfolding decode_u16
decode_u16-Decodes {bp} w rest v h e =
    subst (λ x. Decodes (decode_u16 bp) bp x rest) (word16_lem w h)
      (get-Decodes (λ d. word16 d 0) (be16 w) rest 2 v refl e)

pub decode_string-Decodes :
    {bp : Buf} (s rest : List ℕ)
    → IsReadable bp
    → IsText s
    → contents bp ≡ (s ++ 0 ∷ []) ++ rest
    → Decodes (decode_string bp) bp s rest
unfolding decode_string
decode_string-Decodes {bp} s rest v t e =
    let (out, bytes, readable, block) = gets-text s rest v t (e ∙ append_assoc s (0 ∷ []) rest) in
    ((gets bp).1, taken (gets bp) out, record { readable = readable; bytes = bytes; block = block })
  where
    taken : (r : Option (List ℕ) × Buf) → r.0 ≡ some s → got (λ d. d) r ≡ some (s, r.1)
    taken (o, b) q = ground arith
