-- ===== src/Buffer/Refine.antt =====
-- A valid buffer of library/buffer.c behaves as the window of the bytes that it holds: each operation
-- does to the buffer what the window's operation of that name does to the bytes.
use mathlib.Core.Option
use twopence.Prelude.{
  ℕ, ◌+◌, ◌-◌, ◌≤◌, ◌≡◌, refl, ap, ap₂, ◌∙◌, true, false, Option, none, some, List, [], ◌∷◌, length,
  take, drop, slice, blit-split, take-length-add, take-take, drop-take, drop-drop, take-all,
  append-nil, arith,
}
use twopence.Buffer.{Buf, pull, push, append, get, truncate, compact}
use twopence.Buffer.Bounds.{
  IsValid, IsValid-IsReadable, append-IsValid, push-IsValid, get-IsValid, pull-IsValid,
  truncate-IsValid, compact-IsValid,
}
use twopence.Buffer.Contents.{contents, view, length-contents, slice-blit_end, slice-blit_start}
use twopence.Buffer.Window
use twopence.Buffer.Window.{Window, Op, Reply}

abbrev answer : Option (List ℕ) → Reply
answer none = (false, [])
answer (some d) = (true, d)

abbrev pub Refines : Buf → Op → Reply × Buf → Type 0
Refines bp op (r, bp') = ◌≡◌ {A = Reply × Window} (r, view bp') (Window.step (view bp) op)

-- One call on the buffer. `get` hands out a copy, `pull` the memory at the old head, of which the
-- caller may read `n` bytes.
unfoldable pub step : Buf → Op → Reply × Buf
step bp (Op.appends d) = let (done, bp') = append bp d (length d) in ((done, []), bp')
step bp (Op.pushes d) = let (done, bp') = push bp d (length d) in ((done, []), bp')
step bp (Op.gets n) = let (out, bp') = get bp n in (answer out, bp')
step bp (Op.pulls n) = let (mem, bp') = pull bp n in (answer (Option.map (take n) mem), bp')
step bp (Op.truncates n) = ((true, []), truncate bp n)
step bp Op.compacts = ((true, []), compact bp)

append-Refines :
    {bp : Buf} (d : List ℕ) → IsValid bp → Refines bp (Op.appends d) (step bp (Op.appends d))
unfolding step append Window.step
append-Refines {bp} d v = ground (
  arith,
  length-contents (IsValid-IsReadable v),
  take-all d (length d),
  slice-blit_end bp.base bp.head bp.tail (bp.tail + length d - bp.head) d,
)

push-Refines :
    {bp : Buf} (d : List ℕ) → IsValid bp → Refines bp (Op.pushes d) (step bp (Op.pushes d))
unfolding step push Window.step
push-Refines {bp} d v = ground (
  arith,
  take-all d (length d),
  slice-blit_start bp.base bp.head (bp.head - length d) (bp.tail - bp.head) d,
)

-- Past the first `n` bytes of the window.
pub slice-add :
    (xs : List ℕ) (h n t : ℕ)
    → h + n ≤ t
    → drop n (slice xs h (t - h)) ≡ slice xs (h + n) (t - (h + n))
slice-add xs h n t e =
    drop-take n (t - h) (drop h xs)
    ∙ ap (λ l. take (t - h - n) l) (drop-drop n h (h + n) xs refl)
    ∙ ap (λ k. take k (drop (h + n) xs)) (let p : t - h - n ≡ t - (h + n) = omega arith in p)

get-Refines : {bp : Buf} (n : ℕ) → IsValid bp → Refines bp (Op.gets n) (step bp (Op.gets n))
unfolding step get Window.step
get-Refines {bp} n v = ground (
  arith,
  length-contents (IsValid-IsReadable v),
  take-take n (bp.tail - bp.head) (drop bp.head bp.base),
  slice-add bp.base bp.head n bp.tail,
)

pull-Refines : {bp : Buf} (n : ℕ) → IsValid bp → Refines bp (Op.pulls n) (step bp (Op.pulls n))
unfolding step pull Window.step
pull-Refines {bp} n v = ground (
  arith,
  length-contents (IsValid-IsReadable v),
  take-take n (bp.tail - bp.head) (drop bp.head bp.base),
  slice-add bp.base bp.head n bp.tail,
)

truncate-Refines :
    {bp : Buf} (n : ℕ) → IsValid bp → Refines bp (Op.truncates n) (step bp (Op.truncates n))
unfolding step truncate Window.step
truncate-Refines {bp} n v = ground (
  arith,
  length-contents (IsValid-IsReadable v),
  take-take n (bp.tail - bp.head) (drop bp.head bp.base),
)

pub compact-contents : {bp : Buf} → IsValid bp → contents (compact bp) ≡ contents bp
unfolding compact
compact-contents {bp} v = ground (
  arith,
  blit-split bp.base 0 (contents bp) (bp.tail - bp.head),
  length-contents (IsValid-IsReadable v),
  take-length-add (contents bp) (drop (bp.tail - bp.head) bp.base) (bp.tail - bp.head) 0,
  append-nil (contents bp),
)

compact-fields :
    {bp : Buf}
    → IsValid bp
    → ((compact bp).head ≡ 0)
      × ((compact bp).tail ≡ bp.tail - bp.head)
      × ((compact bp).size ≡ bp.size)
unfolding compact
compact-fields v = ground arith

compact-Refines : {bp : Buf} → IsValid bp → Refines bp Op.compacts (step bp Op.compacts)
unfolding step Window.step
compact-Refines {bp} v = ground (arith, compact-contents v, compact-fields v)

-- Each of append, push, get, pull, truncate and compact keeps the validity of a buffer, and does
-- to its bytes what the call of that name does to the abstract window.
pub step-Refines :
    {bp : Buf} (op : Op) → IsValid bp → Refines bp op (step bp op) × IsValid (step bp op).1
unfolding step
step-Refines (Op.appends d) v = (append-Refines d v, append-IsValid d (length d) v)
step-Refines (Op.pushes d) v = (push-Refines d v, push-IsValid d (length d) v)
step-Refines (Op.gets n) v = (get-Refines n v, get-IsValid n v)
step-Refines (Op.pulls n) v = (pull-Refines n v, pull-IsValid n v)
step-Refines (Op.truncates n) v = (truncate-Refines n v, truncate-IsValid n v)
step-Refines Op.compacts v = (compact-Refines v, compact-IsValid v)

unfoldable pub run : Buf → List Op → List Reply
unfolding step
run bp [] = []
run bp (op ∷ ops) = let (r, bp') = step bp op in r ∷ run bp' ops

-- No sequence of append, push, get, pull, truncate and compact calls tells a valid buffer from the
-- abstract window of its bytes: all results are the same.
pub run_refines : (ops : List Op) {bp : Buf} → IsValid bp → run bp ops ≡ Window.run (view bp) ops
unfolding run Window.run
run_refines [] v = refl
run_refines (op ∷ ops) v =
    let (e, v') = step-Refines op v in
    ap₂ ◌∷◌ (ap (λ p. p.0) e) (run_refines ops v' ∙ ap (λ p. Window.run p.1 ops) e)
