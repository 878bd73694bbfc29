-- ===== src/Buffer/Search.antt =====
-- `twopence_buf_index` of library/buffer.c: the first occurrence of a string in the window.
use native.Mathlib.Decide.{dec_lt}
use twopence.Prelude.{
  ℕ, zero, suc, ◌+◌, ◌-◌, ◌%◌, ◌≤◌, ◌<◌, ◌≡◌, ◌≢◌, refl, ap, Bool, true, false, not, ◌&&◌, Option,
  none, some, List, [], ◌∷◌, length, slice, get_or, u32_mod, arith, ltb, leb, ◌==◌, if◌then◌else◌,
  Bool-cases, inl, inr, leb→le, leb→lt, le→ltb, subst,
}
use twopence.Buffer.{Buf, head_mem, count}

-- `memcmp(...) == 0` on two runs of the same length.
unfoldable pub bytes_eq : List ℕ → List ℕ → Bool
bytes_eq [] [] = true
bytes_eq [] (y ∷ ys) = false
bytes_eq (x ∷ xs) [] = false
bytes_eq (x ∷ xs) (y ∷ ys) = x == y && bytes_eq xs ys

-- The inner loop, which looks for the first byte of the string.
unfoldable pub skip : ℕ → List ℕ → ℕ → ℕ → ℕ → ℕ → ℕ
skip zero mem c len end pos = pos
skip (suc f) mem c len end pos =
    let more = skip f mem c len end (pos + 1) in
    if not (get_or mem pos 0 == c) && ltb (pos + len) end then more else pos

-- The outer loop. The sums cannot wrap: `pos + len` is at most the count.
unfoldable pub search_from : ℕ → List ℕ → List ℕ → ℕ → ℕ → Option ℕ
unfolding skip bytes_eq
search_from zero mem s end pos = none
search_from (suc f) mem s end pos =
    let p = skip end mem (get_or s 0 0) (length s) end pos in
    let rest = search_from f mem s end (p + 1) in
    if leb pos end then (if bytes_eq (slice mem p (length s)) s then some p else rest) else none

-- `twopence_buf_index`: none is the result -1.
unfoldable pub index : Buf → Option (List ℕ) → Option ℕ
unfolding count search_from
index bp none = none
index bp (some []) = none
index bp (some (c ∷ s)) =
    let len = length (c ∷ s) % u32_mod in
    let end = count bp - len in
    if ltb (count bp) len then none else search_from (suc end) (head_mem bp) (c ∷ s) end 0

bytes_eq→eq : (xs ys : List ℕ) → bytes_eq xs ys ≡ true → xs ≡ ys
unfolding bytes_eq
bytes_eq→eq [] [] h = refl
bytes_eq→eq [] (y ∷ ys) h = absurd (cc h)
bytes_eq→eq (x ∷ xs) [] h = absurd (cc h)
bytes_eq→eq (x ∷ xs) (y ∷ ys) h = ground (arith, bytes_eq→eq xs ys)

bytes_eq_self : (xs : List ℕ) → bytes_eq xs xs ≡ true
unfolding bytes_eq
bytes_eq_self [] = refl
bytes_eq_self (x ∷ xs) = ground (arith, bytes_eq_self xs)

-- The string stands at index `p`.
abbrev pub Occurs : List ℕ → List ℕ → ℕ → Type 0
Occurs mem s p = slice mem p (length s) ≡ s

-- What a search for the first index up to `end` has to return.
abbrev pub IsFirst : List ℕ → List ℕ → ℕ → Option ℕ → Type 0
IsFirst mem s end none = (q : ℕ) → q ≤ end → ¬ Occurs mem s q
IsFirst mem s end (some p) = (p ≤ end) × Occurs mem s p × ((q : ℕ) → q < p → ¬ Occurs mem s q)

first_byte : (mem : List ℕ) (c : ℕ) (s : List ℕ) (q : ℕ) → Occurs mem (c ∷ s) q → get_or mem q 0 ≡ c
first_byte [] c s zero e = absurd (cc e)
first_byte [] c s (suc q) e = absurd (cc e)
first_byte (x ∷ mem) c s zero e = ground arith
first_byte (x ∷ mem) c s (suc q) e = first_byte mem c s q e

-- The inner loop passes over no occurrence, and stays in range.
skip_lem :
    (f : ℕ) (mem : List ℕ) (c : ℕ) (s : List ℕ) (len end pos : ℕ)
    → pos ≤ end
    → (pos ≤ skip f mem c len end pos)
      × (skip f mem c len end pos ≤ end)
      × ((q : ℕ) → pos ≤ q → q < skip f mem c len end pos → ¬ Occurs mem (c ∷ s) q)
unfolding skip
skip_lem zero mem c s len end pos h = (omega arith, h, λ q lo hi. absurd (omega arith))
skip_lem (suc f) mem c s len end pos h =
    elim (Bool-cases (not (get_or mem pos 0 == c) && ltb (pos + len) end)) [
      | inl more ↦
          let (lo, hi, none_between) = skip_lem f mem c s len end (pos + 1) (ground arith) in
          rw more (
            omega arith,
            hi,
            λ q a b occurs. elim (dec_lt pos q) [
              | yes p ↦ none_between q (omega arith) b occurs
              | no p ↦ let e : q ≡ pos = omega arith in ground (arith, first_byte mem c s q occurs)
            ],
          )
      | inr done ↦ rw done (omega arith, h, λ q lo hi. absurd (omega arith))
    ]

-- What is known at the inner loop's result extends what was known before it.
before_skip :
    (P : ℕ → Type 0) (pos p : ℕ)
    → ((q : ℕ) → q < pos → P q)
    → ((q : ℕ) → pos ≤ q → q < p → P q)
    → (q : ℕ) → q < p
    → P q
before_skip P pos p before between q lt = elim (dec_lt q pos) [
  | yes h ↦ before q h
  | no h ↦ between q (omega arith) lt
]

before_next : (P : ℕ → Type 0) (p : ℕ) → ((q : ℕ) → q < p → P q) → P p → (q : ℕ) → q < p + 1 → P q
before_next P p before at q lt = elim (dec_lt q p) [
  | yes h ↦ before q h
  | no h ↦ let e : p ≡ q = omega arith in subst P e at
]

differs : (xs ys : List ℕ) → bytes_eq xs ys ≡ false → xs ≢ ys
differs xs ys h e = cc (bytes_eq_self ys, ap (λ l. bytes_eq l ys) e)

search_from-IsFirst :
    (f : ℕ) (mem : List ℕ) (c : ℕ) (s : List ℕ) (end pos : ℕ)
    → end < pos + f
    → ((q : ℕ) → q < pos → ¬ Occurs mem (c ∷ s) q)
    → IsFirst mem (c ∷ s) end (search_from f mem (c ∷ s) end pos)
unfolding search_from
search_from-IsFirst zero mem c s end pos h before = λ q le. before q (omega arith)
search_from-IsFirst (suc f) mem c s end pos h before = elim (Bool-cases (leb pos end)) [
  | inr past ↦ rw past (λ q le. before q (omega (arith, leb→lt pos end past)))
  | inl going ↦
      let (lo, hi, between) =
        skip_lem end mem c s (length (c ∷ s)) end pos (leb→le pos end going) in
      let p = skip end mem c (length (c ∷ s)) end pos in
      let before_p = before_skip (λ q. ¬ Occurs mem (c ∷ s) q) pos p before between in
      elim (Bool-cases (bytes_eq (slice mem p (length (c ∷ s))) (c ∷ s))) [
        | inl found ↦ rw (going, found) (hi, bytes_eq→eq _ _ found, before_p)
        | inr missed ↦
            rw (going, missed)
              (search_from-IsFirst f mem c s end (p + 1) (omega arith)
                (before_next (λ q. ¬ Occurs mem (c ∷ s) q) p before_p (differs _ _ missed)))
      ]
]

-- For a string of at least one byte that is no longer than the window, buf_index returns the first
-- position at which the string occurs within the window, and -1 only if there is none.
pub index-IsFirst :
    (bp : Buf) (c : ℕ) (s : List ℕ)
    → length (c ∷ s) ≤ count bp
    → count bp < u32_mod
    → IsFirst (head_mem bp) (c ∷ s) (count bp - length (c ∷ s)) (index bp (some (c ∷ s)))
unfolding index
index-IsFirst bp c s h small =
    let len : length (c ∷ s) % u32_mod ≡ length (c ∷ s) = omega arith in
    rw (len, le→ltb (count bp) (length (c ∷ s)) h)
      (search_from-IsFirst (suc (count bp - length (c ∷ s))) (head_mem bp) c s
        (count bp - length (c ∷ s)) 0 (omega arith) (λ q lt. absurd (omega arith)))
