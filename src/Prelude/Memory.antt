-- ===== src/Prelude/Memory.antt =====
-- A block of memory is the list of its bytes. `memcpy` into it keeps its length: what would fall
-- past its end is not written.
use Prim.Native.Nat.{ℕ, zero, suc, ◌+◌, ◌≤◌}
use mathlib.Core.Path.{◌≡◌, refl, ap}
use mathlib.Core.List.{List, [], ◌∷◌, ◌++◌}
use native.Mathlib.Omega.{arith}
use twopence.Prelude.Lists.{length, take, drop, length-take}

-- The bytes `ds` copied to offset `i` of the block.
abbrev pub blit {ℓ} : {A : Type ℓ} → List A → ℕ → List A → List A
blit [] i ds = []
blit (x ∷ xs) zero [] = x ∷ xs
blit (x ∷ xs) zero (d ∷ ds) = d ∷ blit xs zero ds
blit (x ∷ xs) (suc i) ds = x ∷ blit xs i ds

-- The `n` bytes at offset `i`.
abbrev pub slice {ℓ} : {A : Type ℓ} → List A → ℕ → ℕ → List A
slice xs i n = take n (drop i xs)

module _ {ℓ} {A : Type ℓ} where
  pub length-blit : (xs : List A) (i : ℕ) (ds : List A) → length (blit xs i ds) ≡ length xs
  length-blit [] i ds = refl
  length-blit (x ∷ xs) zero [] = refl
  length-blit (x ∷ xs) zero (d ∷ ds) = ap suc (length-blit xs zero ds)
  length-blit (x ∷ xs) (suc i) ds = ap suc (length-blit xs i ds)

  -- In bounds, a copy splits the block in what stands before, the copy, and what stands behind.
  pub blit-split :
      (xs : List A) (i : ℕ) (ds : List A) (k : ℕ)
      → i + length ds ≤ length xs
      → k ≡ i + length ds
      → blit xs i ds ≡ take i xs ++ (ds ++ drop k xs)
  blit-split [] zero [] zero h e = refl
  blit-split [] zero [] (suc k) h e = refl
  blit-split [] zero (d ∷ ds) k h e = absurd (omega arith)
  blit-split [] (suc i) ds k h e = absurd (omega arith)
  blit-split (x ∷ xs) zero [] zero h e = refl
  blit-split (x ∷ xs) zero [] (suc k) h e = absurd (omega arith)
  blit-split (x ∷ xs) zero (d ∷ ds) zero h e = absurd (omega arith)
  blit-split (x ∷ xs) zero (d ∷ ds) (suc k) h e =
      ap (◌∷◌ d) (blit-split xs zero ds k (omega arith) (omega arith))
  blit-split (x ∷ xs) (suc i) ds zero h e = absurd (omega arith)
  blit-split (x ∷ xs) (suc i) ds (suc k) h e =
      ap (◌∷◌ x) (blit-split xs i ds k (omega arith) (omega arith))

  -- Reading from before the copy.
  pub drop-blit :
      (xs : List A) (h i j : ℕ) (ds : List A)
      → i ≡ h + j
      → drop h (blit xs i ds) ≡ blit (drop h xs) j ds
  drop-blit xs zero i j ds e = ap (λ t. blit xs t ds) (omega arith)
  drop-blit [] (suc h) i j ds e = refl
  drop-blit (x ∷ xs) (suc h) zero j ds e = absurd (omega arith)
  drop-blit (x ∷ xs) (suc h) (suc i) j ds e = drop-blit xs h i j ds (omega arith)

  pub length-slice : (xs : List A) (i n : ℕ) → i + n ≤ length xs → length (slice xs i n) ≡ n
  length-slice xs zero n h = omega (arith, length-take n xs)
  length-slice [] (suc i) n h = absurd (omega arith)
  length-slice (x ∷ xs) (suc i) n h = length-slice xs i n (omega arith)
