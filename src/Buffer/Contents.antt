-- ===== src/Buffer/Contents.antt =====
-- The bytes that a buffer of library/buffer.c holds, and how a copy into its block changes them.
use twopence.Prelude.{
  ℕ, ◌+◌, ◌-◌, ◌≤◌, ◌<◌, ◌≡◌, refl, sym, ap, ◌∙◌, true, false, List, ◌++◌, length, take, drop, blit,
  slice, blit-split, drop-blit, length-slice, length-take, length-drop, take-length-add,
  drop-length-add, drop-drop, take-append-drop, take-all, append_assoc, append-nil, arith,
  length-append,
}
use twopence.Buffer.{Buf, append}
use twopence.Buffer.Bounds.{append-IsValid, IsValid, IsReadable, append-IsValid}
use twopence.Buffer.Window.{Window}

-- The bytes between head and tail.
abbrev pub contents : Buf → List ℕ
contents bp = slice bp.base bp.head (bp.tail - bp.head)

abbrev pub view : Buf → Window
view bp = record { front = bp.head; bytes = contents bp; back = bp.size - bp.tail }

pub length-contents : {bp : Buf} → IsReadable bp → length (contents bp) ≡ bp.tail - bp.head
length-contents {bp} v = length-slice bp.base bp.head (bp.tail - bp.head) (omega arith)

module _ {ℓ} {A : Type ℓ} where
  -- Reading on past the end of the old window, over a copy that stands there.
  pub slice-blit_end :
      (xs : List A) (h t n : ℕ) (ds : List A)
      → h ≤ t
      → t + length ds ≤ length xs
      → n ≡ t + length ds - h
      → slice (blit xs t ds) h n ≡ slice xs h (t - h) ++ ds
  slice-blit_end xs h t n ds ht hl e =
      ap (take n) (
        drop-blit xs h t (t - h) ds (omega arith)
        ∙ blit-split (drop h xs) (t - h) ds (t - h + length ds) (omega (arith, length-drop h xs))
            refl)
      ∙ take-length-add (take (t - h) (drop h xs)) _ n (length ds)
          (omega (arith, length-take (t - h) (drop h xs), length-drop h xs))
      ∙ ap (◌++◌ (take (t - h) (drop h xs)))
          (take-length-add ds _ (length ds) 0 (omega arith) ∙ append-nil ds)

  -- Reading from a copy that ends where the old window began.
  pub slice-blit_start :
      (xs : List A) (h k n : ℕ) (ds : List A)
      → k + length ds ≡ h
      → h ≤ length xs
      → slice (blit xs k ds) k (length ds + n) ≡ ds ++ slice xs h n
  slice-blit_start xs h k n ds e hl =
      ap (take (length ds + n)) (
        drop-blit xs k k 0 ds (omega arith)
        ∙ blit-split (drop k xs) 0 ds (length ds) (omega (arith, length-drop k xs)) (omega arith))
      ∙ take-length-add ds _ (length ds + n) n refl
      ∙ ap (λ t. ds ++ take n t) (drop-drop (length ds) k h xs (sym e))

-- `append` of a whole list, by cases on the room.
pub append_fits :
    {bp : Buf} (d : List ℕ) (n : ℕ)
    → IsValid bp
    → n ≡ length d
    → bp.tail + n ≤ bp.size
    → let (done, bp') = append bp d n in
      (done ≡ true)
      × (contents bp' ≡ contents bp ++ d)
      × (bp'.head ≡ bp.head)
      × (bp'.tail ≡ bp.tail + n)
      × (bp'.size ≡ bp.size)
      × IsValid bp'
unfolding append
append_fits {bp} d n v e h = ground (
  arith,
  take-all d n,
  slice-blit_end bp.base bp.head bp.tail (bp.tail + n - bp.head) d,
  append-IsValid d n v,
)

pub append_full :
    {bp : Buf} (d : List ℕ) (n : ℕ)
    → IsValid bp
    → bp.size < bp.tail + n
    → append bp d n ≡ (false, bp)
unfolding append
append_full {bp} d n v h = ground arith

-- A window that begins with `d`: the memory at the head is `d` and the memory behind it, where the
-- rest of the window stands.
pub record BeginsWith (bp : Buf) (d rest : List ℕ) (k : ℕ) : Type 0 where
  pub memory : drop bp.head bp.base ≡ d ++ drop k bp.base
  pub behind : slice bp.base k (bp.tail - k) ≡ rest
  pub inside : k ≤ bp.tail

pub contents-BeginsWith :
    {bp : Buf} (d rest : List ℕ) (k : ℕ)
    → IsReadable bp
    → contents bp ≡ d ++ rest
    → k ≡ bp.head + length d
    → BeginsWith bp d rest k
contents-BeginsWith {bp} d rest k v e ek = record {
  memory = mem ∙ ap (◌++◌ d) (sym at);
  behind =
      ap (take (bp.tail - k)) at
      ∙ take-length-add rest after (bp.tail - k) 0 left
      ∙ append-nil rest;
  inside = omega (arith, len);
}
  where
    after : List ℕ
    after = drop (bp.tail - bp.head) (drop bp.head bp.base)

    mem : drop bp.head bp.base ≡ d ++ (rest ++ after)
    mem =
        sym (take-append-drop (bp.tail - bp.head) (drop bp.head bp.base))
        ∙ ap (λ l. l ++ after) e
        ∙ append_assoc d rest after

    len : bp.tail - bp.head ≡ length d + length rest
    len = sym (length-contents v) ∙ ap length e ∙ length-append d rest

    left : bp.tail - k ≡ length rest + 0
    left = omega (arith, len)

    at : drop k bp.base ≡ rest ++ after
    at =
        sym (drop-drop (length d) bp.head k bp.base ek)
        ∙ ap (drop (length d)) mem
        ∙ drop-length-add d (rest ++ after) (length d) 0 (omega arith)
