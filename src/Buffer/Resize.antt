-- ===== src/Buffer/Resize.antt =====
-- `twopence_buf_resize` of library/buffer.c: which size it picks, and that it keeps the bytes.
use native.Mathlib.Nat.{pow-zero, pow-suc}
use twopence.Prelude.{
  ℕ, zero, suc, ◌+◌, ◌-◌, ◌*◌, ◌%◌, ◌^◌, ◌≤◌, ◌<◌, ◌≡◌, refl, ap, ◌∙◌, true, some, List, length,
  take, drop, blit, slice, blit-split, length-blit, take-append_le, length-drop, leb→le, leb→lt,
  le→leb, take-all, drop-append_le, arith, ltb, leb, if◌then◌else◌, u32_mod, Bool-cases, ltb→lt,
  ltb→le, ◌⊎◌, inl, inr,
}
use twopence.Buffer.{Buf, double_until, pick_size, resize, buffer_min_size}
use twopence.Buffer.Bounds.{IsValid}
use twopence.Buffer.Contents.{contents}

double : (n p : ℕ) → n * 2 * p ≡ n * (p * 2)
double n p = grind arith

-- The doubling loop ends before its fuel does, at a size that is at least the wanted one and less
-- than twice it.
double_until_bounds :
    (f want n : ℕ)
    → want ≤ n * 2 ^ f
    → want ≤ 2 ^ 31
    → n < 2 * want
    → (want ≤ double_until f want n) × (double_until f want n < 2 * want)
unfolding double_until
double_until_bounds zero want n h hk hn = omega (arith, pow-zero 2)
double_until_bounds (suc f) want n h hk hn = elim (Bool-cases (ltb n want)) [
  | inl more ↦
      rw more
        (double_until_bounds f want (n * 2 % u32_mod) (next (ltb→lt n want more)) hk (ground arith))
  | inr done ↦ rw done (omega (arith, ltb→le n want done))
]
  where
    next : n < want → want ≤ n * 2 % u32_mod * 2 ^ f
    next lt =
        let e : n * 2 % u32_mod ≡ n * 2 = omega arith in
        rw e (omega (arith, double n (2 ^ f), ap (λ t. n * t) (pow-suc 2 f)))

-- The block that resize picks has at least the size asked for, and is less than twice as large or
-- the smallest block.
pub pick_size_bounds :
    (want : ℕ)
    → 0 < want
    → (want ≤ pick_size want) × ((pick_size want ≤ buffer_min_size) ⊎ (pick_size want < 2 * want))
unfolding pick_size
pick_size_bounds want h = ground (arith, double_until_bounds 11 want buffer_min_size)

-- What a block of `n` bytes from malloc is: `n` bytes.
abbrev pub IsBlock : (ℕ → List ℕ) → Type 0
IsBlock fresh = (n : ℕ) → length (fresh n) ≡ n

-- A copy to the start of a larger block is read back.
slice-blit_front :
    (xs ds : List ℕ) (h n : ℕ)
    → length ds ≤ length xs
    → h + n ≤ length ds
    → slice (blit xs 0 ds) h n ≡ slice ds h n
slice-blit_front xs ds h n le hn =
    ap (λ l. take n (drop h l)) (blit-split xs 0 ds (length ds) (omega arith) (omega arith))
    ∙ ap (take n) (drop-append_le ds _ h (omega arith))
    ∙ take-append_le (drop h ds) _ n (omega (arith, length-drop h ds))

pub record Resized (bp bp' : Buf) (want : ℕ) : Type 0 where
  pub valid : IsValid bp'
  pub same : contents bp' ≡ contents bp
  pub enough : want ≤ bp'.size
  pub grown : bp.size ≤ bp'.size
  pub full : length bp'.base ≡ bp'.size
  pub indices : (bp'.head ≡ bp.head) × (bp'.tail ≡ bp.tail)

-- The block after a reallocation to `n` bytes.
abbrev moved : (ℕ → List ℕ) → Buf → ℕ → List ℕ
moved fresh bp n =
    if bp.dynamic then blit (fresh n) 0 bp.base else blit (fresh n) 0 (take bp.size bp.base)

moved-eq :
    (fresh : ℕ → List ℕ) (bp : Buf) (n : ℕ)
    → length bp.base ≡ bp.size
    → moved fresh bp n ≡ blit (fresh n) 0 bp.base
moved-eq fresh bp n full = ground (arith, take-all bp.base bp.size)

moved-Resized :
    (fresh : ℕ → List ℕ) (bp : Buf) (want n : ℕ)
    → IsBlock fresh
    → IsValid bp
    → length bp.base ≡ bp.size
    → bp.size < want
    → want ≤ n
    → n < u32_mod
    → Resized bp (record bp { base = moved fresh bp n; dynamic = true; size = n }) want
moved-Resized fresh bp want n block v full lt le small = record {
  valid = omega (arith, len);
  same =
      ap (λ xs. slice xs bp.head (bp.tail - bp.head)) eq
      ∙ slice-blit_front (fresh n) bp.base bp.head (bp.tail - bp.head) (omega (arith, block n))
          (omega arith);
  enough = le;
  grown = omega arith;
  full = len;
  indices = (refl, refl);
}
  where
    eq : moved fresh bp n ≡ blit (fresh n) 0 bp.base
    eq = moved-eq fresh bp n full

    len : length (moved fresh bp n) ≡ n
    len = ap length eq ∙ length-blit (fresh n) 0 bp.base ∙ block n

-- Resizing a valid buffer to less than 2^31 bytes never fails its assertion: the result is valid,
-- has the size and a block of exactly that size, is no smaller, and keeps the bytes and the
-- indices.
pub resize-Resized :
    (fresh : ℕ → List ℕ) (bp : Buf) (want : ℕ)
    → IsBlock fresh
    → IsValid bp
    → length bp.base ≡ bp.size
    → want < 2 ^ 31
    → (bp' : Buf) × (resize fresh bp want ≡ some bp') × Resized bp bp' want
unfolding resize
resize-Resized fresh bp want block v full small = elim (Bool-cases (leb want bp.size)) [
  | inl fits ↦ (
    bp,
    rw fits,
    record {
      valid = v;
      same = refl;
      enough = leb→le want bp.size fits;
      grown = omega arith;
      full = full;
      indices = (refl, refl);
    },
  )
  | inr more ↦
      let lt : bp.size < want = leb→lt want bp.size more in
      let (low, high) = pick_size_bounds want (omega arith) in
      (
        record bp { base = moved fresh bp (pick_size want); dynamic = true; size = pick_size want },
        rw (more, le→leb want (pick_size want) low),
        moved-Resized fresh bp want (pick_size want) block v full lt low (ground (arith, high)),
      )
]
