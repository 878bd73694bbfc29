-- ===== src/Buffer.antt =====
-- library/buffer.c and buffer.h: `twopence_buf_t`, a window [head, tail) in a block of memory.
-- The block is the list of the bytes that can be read from `base` on (a NULL base is the empty
-- block), and an index into it stands for a pointer. A function that changes `*bp` returns the
-- new buffer beside its result; `none` is the NULL pointer, and for the functions that assert,
-- a failed assertion. Fields are `unsigned int`: sums and differences wrap at 2 ^ 32.
pub mod Bounds
pub mod Window
pub mod Contents
pub mod Refine
pub mod Resize
pub mod Strings
pub mod Search
pub mod Clone
mod Tests
use twopence.Prelude.{
  ℕ, zero, suc, ◌+◌, ◌*◌, ◌%◌, Bool, true, false, ◌&&◌, Option, none, some, List, [], ◌∷◌, ◌++◌,
  length, take, drop, replicate, blit, slice, ltb, leb, ◌==◌, if◌then◌else◌, u32_mod, add_u32,
  sub_u32,
}

-- `struct twopence_buf`
pub record Buf : Type 0 where
  pub base : List ℕ
  pub head : ℕ
  pub tail : ℕ
  pub size : ℕ
  pub dynamic : Bool

-- `twopence_buf_init`
abbrev pub init : Buf
init = record { base = []; head = 0; tail = 0; size = 0; dynamic = false }

-- `twopence_buf_init_static`: `mem` is all memory from the pointer `data` on; `len` is a size_t.
unfoldable pub init_static : List ℕ → ℕ → Buf
init_static mem len = record init { base = mem; tail = len % u32_mod }

-- `twopence_buf_destroy`: the memory goes back to the allocator, the fields are cleared.
unfoldable pub destroy : Buf → Buf
destroy bp = init

-- `twopence_buf_new`: calloc clears the block.
unfoldable pub new : ℕ → Buf
new size = record init { base = replicate size 0; size = size % u32_mod }

-- What `twopence_buf_head` points at: the memory from `head` on.
abbrev pub head_mem : Buf → List ℕ
head_mem bp = drop bp.head bp.base

unfoldable pub tailroom : Buf → ℕ
tailroom bp = sub_u32 bp.size bp.tail

unfoldable pub tailroom_max : Buf → ℕ
tailroom_max bp = sub_u32 bp.size bp.tail

unfoldable pub count : Buf → ℕ
count bp = sub_u32 bp.tail bp.head

-- `twopence_buf_pull`: the memory at the old head.
unfoldable pub pull : Buf → ℕ → Option (List ℕ) × Buf
unfolding count
pull bp len =
    if ltb (count bp) len
    then (none, bp)
    else (some (head_mem bp), record bp { head = add_u32 bp.head len })

-- `twopence_buf_push`: memcpy of `len` bytes of `d` in front of the head.
unfoldable pub push : Buf → List ℕ → ℕ → Bool × Buf
push bp d len =
    if ltb bp.head len
    then (false, bp)
    else let h = sub_u32 bp.head len in
      (true, record bp { head = h; base = blit bp.base h (take len d) })

-- `for (new_size = BUFFER_MIN_SIZE; new_size < want_size; new_size *= 2);`, on fuel.
unfoldable pub double_until : ℕ → ℕ → ℕ → ℕ
double_until zero want n = n
double_until (suc f) want n =
    let more = double_until f want (n * 2 % u32_mod) in if ltb n want then more else n

abbrev pub buffer_min_size : ℕ
buffer_min_size = 128

abbrev pub buffer_big_size : ℕ
buffer_big_size = 131072

-- The size that `twopence_buf_resize` picks; the loop takes at most ten rounds.
unfoldable pub pick_size : ℕ → ℕ
unfolding double_until
pick_size want =
    if ltb want buffer_min_size
    then buffer_min_size
    else if ltb want buffer_big_size
    then double_until 11 want buffer_min_size
    else want

-- `twopence_buf_resize`. `fresh n` is the content of a block of `n` bytes as malloc hands it out.
-- realloc keeps what fits of the old block; the copy of a block that is not on the heap takes
-- `size` bytes. The assertion is `want <= new_size`.
unfoldable pub resize : (ℕ → List ℕ) → Buf → ℕ → Option Buf
unfolding pick_size
resize fresh bp want =
    if leb want bp.size
    then some bp
    else let n = pick_size want in
      if leb want n
      then some (record bp {
        base =
            if bp.dynamic
            then blit (fresh n) 0 bp.base
            else blit (fresh n) 0 (take bp.size bp.base);
        dynamic = true;
        size = n;
      })
      else none

-- `twopence_buf_ensure_tailroom`: its result is always `true`.
unfoldable pub ensure_tailroom : (ℕ → List ℕ) → Buf → ℕ → Option Buf
unfolding tailroom
ensure_tailroom fresh bp want =
    if ltb (tailroom bp) want then resize fresh bp (add_u32 bp.tail want) else some bp

-- `twopence_buf_reserve_head`
unfoldable pub reserve_head : Buf → ℕ → Option Buf
reserve_head bp amount =
    if bp.head == bp.tail && ltb amount bp.size
    then some (record bp { head = amount; tail = amount })
    else none

-- `twopence_buf_reserve_tail`: the index of the tail, or NULL.
unfoldable pub reserve_tail : Buf → ℕ → Option ℕ
unfolding tailroom
reserve_tail bp len = if ltb (tailroom bp) len then none else some bp.tail

-- `twopence_buf_advance_tail`
unfoldable pub advance_tail : Buf → ℕ → Option Buf
unfolding tailroom
advance_tail bp len =
    if leb len (tailroom bp) then some (record bp { tail = add_u32 bp.tail len }) else none

-- `twopence_buf_advance_head`
unfoldable pub advance_head : Buf → ℕ → Option Buf
unfolding count
advance_head bp len =
    if leb len (count bp) then some (record bp { head = add_u32 bp.head len }) else none

-- `twopence_buf_truncate`
unfoldable pub truncate : Buf → ℕ → Buf
unfolding count
truncate bp len = if ltb len (count bp) then record bp { tail = add_u32 bp.head len } else bp

-- `twopence_buf_append`
unfoldable pub append : Buf → List ℕ → ℕ → Bool × Buf
unfolding reserve_tail
append bp d len = elim (reserve_tail bp len) [
  | none ↦ (false, bp)
  | some at ↦
      (true, record bp { base = blit bp.base bp.tail (take len d); tail = add_u32 bp.tail len })
]

-- `twopence_buf_clone`
unfoldable pub clone : Buf → Buf
clone bp = (append (new (count bp)) (head_mem bp) (count bp)).1

-- `twopence_buf_get`: what is copied to `data`, or none for false.
unfoldable pub get : Buf → ℕ → Option (List ℕ) × Buf
unfolding count
get bp len =
    if ltb (count bp) len
    then (none, bp)
    else (some (slice bp.base bp.head len), record bp { head = add_u32 bp.head len })

-- `twopence_buf_puts`: a C string is the list of its bytes, without the NUL.
unfoldable pub puts : Buf → Option (List ℕ) → Bool × Buf
unfolding append
puts bp none = (true, bp)
puts bp (some s) = append bp (s ++ 0 ∷ []) ((length s + 1) % u32_mod)

-- The loop of `twopence_buf_gets` over the memory at the head: the test of `s[n]` comes before
-- that of `n >= count`. `none` is the return of NULL, and a read past the end of the block.
unfoldable pub find_nul : List ℕ → ℕ → ℕ → Option ℕ
find_nul [] n limit = none
find_nul (c ∷ cs) n limit =
    let rest = find_nul cs (suc n) limit in
    if c == 0 then some n else if leb limit n then none else rest

-- `twopence_buf_gets`: the string up to the NUL that was found.
unfoldable pub gets : Buf → Option (List ℕ) × Buf
unfolding count find_nul
gets bp = if count bp == 0 then (none, bp) else elim (find_nul (head_mem bp) 0 (count bp)) [
  | none ↦ (none, bp)
  | some n ↦ (some (take n (head_mem bp)), record bp { head = add_u32 bp.head (suc n) })
]

-- `twopence_buf_reset`
unfoldable pub reset : Buf → Option Buf
unfolding count
reset bp = if count bp == 0 then some (record bp { head = 0; tail = 0 }) else none

-- `twopence_buf_compact`: memmove of the window to the start of the block.
unfoldable pub compact : Buf → Buf
unfolding count
compact bp = record bp {
  base = if count bp == 0 then bp.base else blit bp.base 0 (slice bp.base bp.head (count bp));
  head = 0;
  tail = count bp;
}
