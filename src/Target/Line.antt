-- ===== src/Target/Line.antt =====
-- The line that `twopence_chat_gets` of library/twopence.c copies.
use twopence.Prelude.{
  ℕ, ◌+◌, ◌-◌, ◌≤◌, ◌<◌, ◌≡◌, ◌≢◌, refl, sym, ap, ◌∙◌, Bool, true, false, Option, none, some, List,
  [], ◌∷◌, ◌++◌, length, length-append, append_assoc, take, drop, slice, take-length-add,
  drop-length-add, add_u32, ltb, ◌==◌, if◌then◌else◌, arith,
}
use twopence.Buffer.{Buf, count, head_mem, pull}
use twopence.Buffer.Bounds.{IsReadable, count_lem}
use twopence.Buffer.Contents.{contents, length-contents, BeginsWith, contents-BeginsWith}
use twopence.Buffer.Strings.{head_mem-split}
use twopence.Buffer.Search.{index, Occurs, IsFirst, index-IsFirst}
use twopence.Target.{
  copy_line, Got, gives, waits, taken_line, Received, has_line, gets_loop, chat_gets,
}

-- A line holds no LF, CR or NUL.
abbrev pub IsLine : List ℕ → Type 0
IsLine [] = Unit {0}
IsLine (c ∷ cs) = (c ≢ 0) × (c ≢ 10) × (c ≢ 13) × IsLine cs

-- A line is copied up to its LF or CR LF, which is taken too, or to the end of what there is.
pub copy_line-whole :
    (line rest : List ℕ)
    → IsLine line
    → (copy_line (line ++ (10 ∷ rest)) ≡ (line, length line + 1))
      × (copy_line (line ++ (13 ∷ 10 ∷ rest)) ≡ (line, length line + 2))
      × (copy_line line ≡ (line, length line))
unfolding copy_line
copy_line-whole [] rest l = (refl, refl, refl)
copy_line-whole (c ∷ cs) rest l =
    let (lf, crlf, end) = copy_line-whole cs rest (l.3) in
    let t1 : (c == 13) ≡ false = ground (arith, l.2) in
    let t2 : (c == 0) ≡ false = ground (arith, l.0) in
    let t3 : (c == 10) ≡ false = ground (arith, l.1) in
    (
      simp (t1, t2, t3, lf) (ap (λ (n : ℕ). (c ∷ cs, n)) (omega arith)),
      simp (t1, t2, t3, crlf) (ap (λ (n : ℕ). (c ∷ cs, n)) (omega arith)),
      simp (t1, t2, t3, end) (ap (λ (n : ℕ). (c ∷ cs, n)) (omega arith)),
    )

-- The bytes that are looked at, where a line with its LF is among them.
taken_front :
    {bp : Buf} (line rest : List ℕ) (n : ℕ)
    → IsReadable bp
    → contents bp ≡ line ++ (10 ∷ rest)
    → length line + 1 ≤ n
    → (more : List ℕ) × (take n (head_mem bp) ≡ line ++ (10 ∷ more))
taken_front {bp} line rest n v e h =
    let after = drop (bp.tail - bp.head) (head_mem bp) in
    let k = n - (length line + 1) in
    let lf : List ℕ = 10 ∷ [] in
    (
      take k (rest ++ after),
      ap (take n) (head_mem-split v ∙ ap (λ l. l ++ after) e)
          ∙ ap (take n)
              (append_assoc line (10 ∷ rest) after ∙ sym (append_assoc line lf (rest ++ after)))
          ∙ take-length-add (line ++ lf) (rest ++ after) n k (omega (arith, length-append line lf))
          ∙ append_assoc line lf (take k (rest ++ after)),
    )

pulled :
    {bp : Buf} (line rest : List ℕ)
    → IsReadable bp
    → contents bp ≡ line ++ (10 ∷ rest)
    → contents (pull bp (length line + 1)).1 ≡ rest
unfolding pull
pulled {bp} line rest v e =
    let lf : List ℕ = 10 ∷ [] in
    let k = bp.head + (length line + 1) in
    let n : length line + 1 + length rest ≡ bp.tail - bp.head =
      omega (
        arith,
        sym (length-contents v) ∙ ap length e,
        length-append line (10 ∷ rest),
        count_lem v,
      ) in
    let w : BeginsWith bp (line ++ lf) rest k =
      contents-BeginsWith (line ++ lf) rest k v (e ∙ sym (append_assoc line lf rest))
        (omega (arith, length-append line lf)) in
    let fits : ltb (count bp) (length line + 1) ≡ false = ground (arith, count_lem v, n) in
    let at : add_u32 bp.head (length line + 1) ≡ k = omega (arith, v.narrow, v.ordered, n) in
    rw fits (ap (λ h. slice bp.base h (bp.tail - h)) at ∙ w.behind)

taken_line-whole :
    {bp : Buf} (size : ℕ) (line rest : List ℕ)
    → IsReadable bp
    → IsLine line
    → contents bp ≡ line ++ (10 ∷ rest)
    → length line + 1 < size
    → (bp' : Buf) × (taken_line size bp ≡ gives (some line) bp') × (contents bp' ≡ rest)
taken_line-whole {bp} size line rest v l e h =
    let n = if ltb (size - 1) (count bp) then size - 1 else count bp in
    let room : length line + 1 ≤ n = ground (
      arith,
      h,
      count_lem v,
      sym (length-contents v) ∙ ap length e,
      length-append line (10 ∷ rest),
    ) in
    let (more, front) = taken_front line rest n v e room in
    (
      (pull bp (length line + 1)).1,
      ap (λ r. gives (some r.0) (pull bp r.1).1)
          (ap copy_line front ∙ (copy_line-whole line more l).0),
      pulled line rest v e,
    )

-- The search finds the LF.
has_line_lem :
    {bp : Buf} (line rest : List ℕ)
    → IsReadable bp
    → contents bp ≡ line ++ (10 ∷ rest)
    → has_line bp ≡ true
has_line_lem {bp} line rest v e =
    let len : bp.tail - bp.head ≡ length line + length (10 ∷ rest) =
      sym (length-contents v) ∙ ap length e ∙ length-append line (10 ∷ rest) in
    found (index bp (some (10 ∷ []))) refl
      (index-IsFirst bp 10 [] (omega (arith, count_lem v, len))
        (omega (arith, count_lem v, v.narrow)))
      (omega (arith, count_lem v, len)) occurs
  where
    occurs : Occurs (head_mem bp) (10 ∷ []) (length line)
    occurs =
        let after = drop (bp.tail - bp.head) (head_mem bp) in
        ap (λ l. take 1 (drop (length line) l))
          (head_mem-split v ∙ ap (λ l. l ++ after) e ∙ append_assoc line (10 ∷ rest) after)
        ∙ ap (take 1) (drop-length-add line (10 ∷ (rest ++ after)) (length line) 0 (omega arith))

    found :
        (o : Option ℕ)
        → index bp (some (10 ∷ [])) ≡ o
        → IsFirst (head_mem bp) (10 ∷ []) (count bp - 1) o
        → length line ≤ count bp - 1
        → Occurs (head_mem bp) (10 ∷ []) (length line)
        → has_line bp ≡ true
    found none q f le at = absurd (f (length line) le at)
    found (some p) q f le at = rw (q, has_line) refl

gets_loop-here :
    (size : ℕ) (received : Received) (bp : Buf)
    → has_line bp ≡ true
    → gets_loop size received bp ≡ taken_line size bp
unfolding gets_loop
gets_loop-here size [] bp e = ap (λ b. if b then taken_line size bp else waits bp) e
gets_loop-here size ((rc, bp') ∷ rest) bp e = rw (e, gets_loop) refl

-- Where the receive buffer of a chat begins with a line without NUL, LF and CR and its LF, and the
-- line with its end is shorter than the size given, gets returns the line at once, whatever would
-- be received, and leaves what stands behind the LF.
pub chat_gets-whole :
    {bp : Buf} (size : ℕ) (received : Received) (line rest : List ℕ)
    → IsReadable bp
    → IsLine line
    → contents bp ≡ line ++ (10 ∷ rest)
    → length line + 1 < size
    → (bp' : Buf) × (chat_gets size received bp ≡ gives (some line) bp') × (contents bp' ≡ rest)
unfolding chat_gets
chat_gets-whole {bp} size received line rest v l e h =
    let (bp', done, left) = taken_line-whole size line rest v l e h in
    let some_room : (size == 0) ≡ false = ground (arith, h) in
    (
      bp',
      ap
            (λ b.
              if b
              then gives none bp
              else if ltb (size - 1) (count bp)
              then taken_line size bp
              else gets_loop size received bp)
            some_room
          ∙ ap (λ g. if ltb (size - 1) (count bp) then taken_line size bp else g)
              (gets_loop-here size received bp (has_line_lem line rest v e))
          ∙ if_same (ltb (size - 1) (count bp)) (taken_line size bp)
          ∙ done,
      left,
    )
  where
    if_same : (b : Bool) (g : Got) → (if b then g else g) ≡ g
    if_same true g = refl
    if_same false g = refl
