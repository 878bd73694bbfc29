-- ===== src/Buffer/Tests.antt =====
-- library/buffer.c on concrete buffers: runs of the operations, and the theorems applied.
use twopence.Prelude.{
  ◌+◌, ◌-◌, ◌*◌, ◌≤◌, ◌<◌, ◌≡◌, ◌⊎◌, refl, true, false, none, some, List, [], ◌∷◌, replicate,
  length-replicate, u32_mod, arith,
}
use twopence.Buffer.{
  Buf, init, new, count, push, pull, append, get, gets, truncate, compact, resize, pick_size,
  buffer_min_size, clone, reset, head_mem,
}
use twopence.Buffer.Bounds.{IsValid, IsReadable}
use twopence.Buffer.Contents.{view}
use twopence.Buffer.Window
use twopence.Buffer.Window.{Op}
use twopence.Buffer.Refine.{run, run_refines}
use twopence.Buffer.Resize.{Resized, pick_size_bounds, resize-Resized}
use twopence.Buffer.Strings.{gets-overrun}
use twopence.Buffer.Search.{IsFirst, index, index-IsFirst}

-- Five bytes, "ab" in the middle, room for one before and two behind.
abbrev small : Buf
small = record init { base = 9 ∷ b'a' ∷ b'b' ∷ 0 ∷ 0 ∷ []; head = 1; tail = 3; size = 5 }

small-IsValid : IsValid small
small-IsValid = omega arith

-- "ab", NUL, "c": a payload that ends in a text without its NUL; a NUL stands behind it.
abbrev texts : Buf
texts = record init { base = b'a' ∷ b'b' ∷ 0 ∷ b'c' ∷ 0 ∷ []; tail = 4; size = 4 }

texts-IsReadable : IsReadable texts
texts-IsReadable = omega arith

-- The same memory with the window at "c".
abbrev last : Buf
last = record texts { head = 3 }

last-IsReadable : IsReadable last
last-IsReadable = omega arith

-- Memory that goes on with letters behind the window "ab".
abbrev endless : Buf
endless = record init { base = b'a' ∷ b'b' ∷ b'c' ∷ b'd' ∷ []; tail = 2; size = 2 }

endless-IsReadable : IsReadable endless
endless-IsReadable = omega arith

abbrev script : List Op
script =
    Op.pushes (7 ∷ [])
    ∷ Op.appends (8 ∷ 8 ∷ 8 ∷ [])
    ∷ Op.gets 2
    ∷ Op.compacts
    ∷ Op.appends (8 ∷ 8 ∷ 8 ∷ [])
    ∷ Op.truncates 2
    ∷ Op.pulls 3
    ∷ Op.pulls 2
    ∷ []

run-small :
    run small script
    ≡ (true, [])
      ∷ (false, [])
      ∷ (true, 7 ∷ b'a' ∷ [])
      ∷ (true, [])
      ∷ (true, [])
      ∷ (true, [])
      ∷ (false, [])
      ∷ (true, b'b' ∷ 8 ∷ [])
      ∷ []
unfolding run push append get compact truncate pull
run-small = refl

gets-texts : ((gets texts).0 ≡ some (b'a' ∷ b'b' ∷ [])) × ((gets texts).1 ≡ last)
unfolding gets
gets-texts = (refl, refl)

pick_size-steps : (pick_size 100 ≡ 128) × (pick_size 129 ≡ 256) × (pick_size 131071 ≡ 131072)
unfolding pick_size
pick_size-steps = (refl, refl, refl)

clone-small : clone small ≡ record init { base = b'a' ∷ b'b' ∷ []; tail = 2; size = 2 }
unfolding clone count append new
clone-small = refl

reset-small :
    (reset small ≡ none)
    × (reset (record small { head = 3 }) ≡ some (record small { head = 0; tail = 0 }))
unfolding reset
reset-small = (refl, refl)

run_refines_example : run small script ≡ Window.run (view small) script
run_refines_example = run_refines script small-IsValid

pick_size_bounds_example :
    (300 ≤ pick_size 300) × ((pick_size 300 ≤ buffer_min_size) ⊎ (pick_size 300 < 2 * 300))
pick_size_bounds_example = pick_size_bounds 300 (omega arith)

resize-Resized_example :
    (bp' : Buf) × (resize (λ n. replicate n 0) small 6 ≡ some bp') × Resized small bp' 6
resize-Resized_example =
    resize-Resized (λ n. replicate n 0) small 6 (λ n. length-replicate n 0) small-IsValid refl
      (omega arith)

gets-overrun_example :
    let (out, bp') = gets last in
    (out ≡ some (b'c' ∷ [])) × (bp'.head ≡ bp'.tail + 1) × (count bp' ≡ u32_mod - 1)
gets-overrun_example =
    gets-overrun (b'c' ∷ []) [] last-IsReadable (omega arith) (omega arith, tt) refl (λ e. cc e)
      refl

count-texts : count texts ≡ 4
unfolding count
count-texts = refl

index-IsFirst_example :
    IsFirst (head_mem texts) (b'b' ∷ 0 ∷ []) (count texts - 2) (index texts (some (b'b' ∷ 0 ∷ [])))
index-IsFirst_example =
    index-IsFirst texts b'b' (0 ∷ []) (omega (arith, count-texts)) (omega (arith, count-texts))
