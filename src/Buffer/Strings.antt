-- ===== src/Buffer/Strings.antt =====
-- C strings in a buffer: `twopence_buf_puts` and `twopence_buf_gets` of library/buffer.c.
use twopence.Prelude.{
  ℕ, suc, ◌+◌, ◌-◌, ◌%◌, ◌≤◌, ◌<◌, ◌≡◌, ◌≢◌, refl, sym, ap, ◌∙◌, true, false, none, some, List, [],
  ◌∷◌, ◌++◌, length, drop, u32_mod, arith, length-append, take-length-add, append-nil, drop-drop,
  take-append-drop, append_assoc, drop-length-add,
}
use twopence.Buffer.{Buf, head_mem, count, puts, gets, find_nul}
use twopence.Buffer.Bounds.{IsValid, IsReadable, count_lem}
use twopence.Buffer.Contents.{contents, length-contents, append_fits, append_full}

-- No byte of the text is NUL.
abbrev pub IsText : List ℕ → Type 0
IsText [] = Unit {0}
IsText (c ∷ s) = (c ≢ 0) × IsText s

-- The loop stops at the first NUL, if the count is not passed before.
find_nul-text :
    (s rest : List ℕ) (n limit : ℕ)
    → IsText s
    → n + length s ≤ limit
    → find_nul (s ++ 0 ∷ rest) n limit ≡ some (n + length s)
unfolding find_nul
find_nul-text [] rest n limit t h = ap some (let e : n ≡ n + 0 = omega arith in e)
find_nul-text (c ∷ s) rest n limit t h =
    ground (arith, t.0, find_nul-text s rest (suc n) limit t.1 (omega arith))

-- The memory from the head on is the window and what stands behind it.
pub head_mem-split :
    {bp : Buf} → IsReadable bp → head_mem bp ≡ contents bp ++ drop (bp.tail - bp.head) (head_mem bp)
head_mem-split {bp} v = sym (take-append-drop (bp.tail - bp.head) (head_mem bp))

-- What `gets` does where the memory at the head begins with a text and its NUL, within the count.
gets_mem :
    (bp : Buf) (s after : List ℕ)
    → IsText s
    → head_mem bp ≡ s ++ 0 ∷ after
    → length s ≤ count bp
    → 0 < count bp
    → gets bp ≡ (some s, record bp { head = (bp.head + suc (length s)) % u32_mod })
unfolding gets
gets_mem bp s after t e h pos = ground (
  arith,
  e,
  find_nul-text s after 0 (count bp) t,
  take-length-add s (0 ∷ after) (length s) 0,
  append-nil s,
)

-- On a readable buffer that begins with a text and its NUL, gets returns the text and leaves what
-- stands behind the NUL.
pub gets-text :
    {bp : Buf} (s rest : List ℕ)
    → IsReadable bp
    → IsText s
    → contents bp ≡ s ++ 0 ∷ rest
    → let (out, bp') = gets bp in
      (out ≡ some s) × (contents bp' ≡ rest) × IsReadable bp' × (bp'.base ≡ bp.base)
unfolding gets
gets-text {bp} s rest v t e = ground (
  arith,
  gets_mem bp s (rest ++ after) t mem (omega (arith, len, count_lem v))
      (omega (arith, len, count_lem v)),
  len,
  tail_mem,
  take-length-add rest after (length rest) 0,
  append-nil rest,
)
  where
    after : List ℕ
    after = drop (bp.tail - bp.head) (head_mem bp)

    mem : head_mem bp ≡ s ++ 0 ∷ (rest ++ after)
    mem = head_mem-split v ∙ ap (λ l. l ++ after) e ∙ append_assoc s (0 ∷ rest) after

    len : bp.tail - bp.head ≡ length s + suc (length rest)
    len = sym (length-contents v) ∙ ap length e ∙ length-append s (0 ∷ rest)

    tail_mem : drop (bp.head + suc (length s)) bp.base ≡ rest ++ after
    tail_mem =
        sym (drop-drop (suc (length s)) bp.head (bp.head + suc (length s)) bp.base refl)
        ∙ ap (drop (suc (length s))) mem
        ∙ drop-length-add s (0 ∷ (rest ++ after)) (suc (length s)) 1 (omega arith)

-- A text that runs past the count ends the loop.
find_nul-none :
    (s rest : List ℕ) (n limit : ℕ)
    → IsText s
    → n ≤ limit
    → limit < n + length s
    → find_nul (s ++ rest) n limit ≡ none
unfolding find_nul
find_nul-none [] rest n limit t h k = absurd (omega arith)
find_nul-none (c ∷ s) rest n limit t h k =
    ground (arith, t.0, find_nul-none s rest (suc n) limit t.1)

-- On a readable buffer with no NUL in the window and in the byte behind it, gets returns NULL and
-- changes nothing.
pub gets-unterminated :
    {bp : Buf} (s rest : List ℕ)
    → IsReadable bp
    → IsText s
    → head_mem bp ≡ s ++ rest
    → length s ≡ suc (bp.tail - bp.head)
    → gets bp ≡ (none, bp)
unfolding gets
gets-unterminated {bp} s rest v t e h =
    ground (arith, e, find_nul-none s rest 0 (count bp) t, count_lem v)

-- On a readable buffer that holds one unterminated text with a NUL byte right behind the window,
-- gets returns the text and moves the head past the tail, after which the count is 2^32 - 1.
pub gets-overrun :
    {bp : Buf} (s after : List ℕ)
    → IsReadable bp
    → bp.tail + 1 < u32_mod
    → IsText s
    → contents bp ≡ s
    → s ≢ []
    → drop bp.tail bp.base ≡ 0 ∷ after
    → let (out, bp') = gets bp in
      (out ≡ some s) × (bp'.head ≡ bp'.tail + 1) × (count bp' ≡ u32_mod - 1)
unfolding count
gets-overrun {bp} s after v small t e nonempty behind = ground (
  arith,
  count_lem v,
  gets_mem bp s after t mem,
  sym (length-contents v) ∙ ap length e,
  positive s nonempty,
)
  where
    mem : head_mem bp ≡ s ++ 0 ∷ after
    mem =
        head_mem-split v
        ∙ ap (λ l. l ++ drop (bp.tail - bp.head) (head_mem bp)) e
        ∙ ap (◌++◌ s) (drop-drop (bp.tail - bp.head) bp.head bp.tail bp.base (omega arith) ∙ behind)

    positive : (s : List ℕ) → s ≢ [] → 0 < length s
    positive [] h = absurd (h refl)
    positive (x ∷ s) h = omega arith

-- `puts` appends the text and its NUL where they fit, and otherwise changes nothing.
pub puts_fits :
    {bp : Buf} (s : List ℕ)
    → IsValid bp
    → bp.tail + (length s + 1) ≤ bp.size
    → let (done, bp') = puts bp (some s) in
      (done ≡ true)
      × (contents bp' ≡ contents bp ++ (s ++ 0 ∷ []))
      × (bp'.head ≡ bp.head)
      × (bp'.tail ≡ bp.tail + (length s + 1))
      × (bp'.size ≡ bp.size)
      × IsValid bp'
unfolding puts
puts_fits {bp} s v h =
    let len : (length s + 1) % u32_mod ≡ length s + 1 = omega arith in
    rw len (append_fits (s ++ 0 ∷ []) (length s + 1) v (sym (length-append s (0 ∷ []))) h)

pub puts_full :
    {bp : Buf} (s : List ℕ)
    → IsValid bp
    → length s + 1 < u32_mod
    → bp.size < bp.tail + (length s + 1)
    → puts bp (some s) ≡ (false, bp)
unfolding puts
puts_full {bp} s v small h =
    let len : (length s + 1) % u32_mod ≡ length s + 1 = omega arith in
    rw len (append_full (s ++ 0 ∷ []) (length s + 1) v h)
