-- ===== src/Buffer/Bounds.antt =====
-- What holds of every buffer that the program builds: the order of the indices, and the size of the
-- block. Under it no `unsigned int` of library/buffer.c wraps.
use twopence.Prelude.{
  ℕ, ◌-◌, ◌≤◌, ◌<◌, ◌≡◌, some, List, length, length-blit, length-replicate, take, slice, u32_mod,
  sub_u32, arith,
}
use twopence.Buffer.{
  Buf, init_static, new, tailroom, count, pull, push, append, get, truncate, compact, reserve_head,
  advance_tail, advance_head, reset,
}

-- A buffer that can be read: its window lies in the block.
pub record IsReadable (bp : Buf) : Type 0 where
  pub ordered : bp.head ≤ bp.tail
  pub readable : bp.tail ≤ length bp.base
  pub narrow : bp.tail < u32_mod

-- A buffer that can also be written: the room after the tail lies in the block.
pub record IsValid (bp : Buf) : Type 0 where
  pub ordered : bp.head ≤ bp.tail
  pub roomy : bp.tail ≤ bp.size
  pub backed : bp.size ≤ length bp.base
  pub narrow : bp.size < u32_mod

pub IsValid-IsReadable : {bp : Buf} → IsValid bp → IsReadable bp
IsValid-IsReadable v = omega arith

pub count_lem : {bp : Buf} → IsReadable bp → count bp ≡ bp.tail - bp.head
unfolding count
count_lem v = omega arith

pub tailroom_lem : {bp : Buf} → IsValid bp → tailroom bp ≡ bp.size - bp.tail
unfolding tailroom
tailroom_lem v = omega arith

pub new-IsValid : (n : ℕ) → n < u32_mod → IsValid (new n)
unfolding new
new-IsValid n h = omega (arith, length-replicate n (let z : ℕ = 0 in z))

pub init_static-IsReadable :
    (mem : List ℕ) (n : ℕ) → n ≤ length mem → n < u32_mod → IsReadable (init_static mem n)
unfolding init_static
init_static-IsReadable mem n h k = omega arith

pub append-IsValid : {bp : Buf} (d : List ℕ) (n : ℕ) → IsValid bp → IsValid (append bp d n).1
unfolding append
append-IsValid {bp} d n v = ground (arith, length-blit bp.base bp.tail (take n d))

pub push-IsValid : {bp : Buf} (d : List ℕ) (n : ℕ) → IsValid bp → IsValid (push bp d n).1
unfolding push
push-IsValid {bp} d n v = ground (arith, length-blit bp.base (sub_u32 bp.head n) (take n d))

pub pull-IsReadable : {bp : Buf} (n : ℕ) → IsReadable bp → IsReadable (pull bp n).1
unfolding pull
pull-IsReadable n v = ground arith

pub pull-IsValid : {bp : Buf} (n : ℕ) → IsValid bp → IsValid (pull bp n).1
unfolding pull
pull-IsValid n v = ground arith

pub get-IsReadable : {bp : Buf} (n : ℕ) → IsReadable bp → IsReadable (get bp n).1
unfolding get
get-IsReadable n v = ground arith

pub get-IsValid : {bp : Buf} (n : ℕ) → IsValid bp → IsValid (get bp n).1
unfolding get
get-IsValid n v = ground arith

pub truncate-IsValid : {bp : Buf} (n : ℕ) → IsValid bp → IsValid (truncate bp n)
unfolding truncate
truncate-IsValid n v = ground arith

pub compact-IsValid : {bp : Buf} → IsValid bp → IsValid (compact bp)
unfolding compact
compact-IsValid {bp} v = ground (arith, length-blit bp.base 0 (slice bp.base bp.head (count bp)))

pub reserve_head-IsValid :
    {bp bp' : Buf} (n : ℕ) → IsValid bp → reserve_head bp n ≡ some bp' → IsValid bp'
unfolding reserve_head
reserve_head-IsValid n v e = ground arith

pub advance_tail-IsValid :
    {bp bp' : Buf} (n : ℕ) → IsValid bp → advance_tail bp n ≡ some bp' → IsValid bp'
unfolding advance_tail
advance_tail-IsValid n v e = ground arith

pub advance_head-IsReadable :
    {bp bp' : Buf} (n : ℕ) → IsReadable bp → advance_head bp n ≡ some bp' → IsReadable bp'
unfolding advance_head
advance_head-IsReadable n v e = ground arith

pub advance_head-IsValid :
    {bp bp' : Buf} (n : ℕ) → IsValid bp → advance_head bp n ≡ some bp' → IsValid bp'
unfolding advance_head
advance_head-IsValid n v e = ground arith

pub reset-IsValid : {bp bp' : Buf} → IsValid bp → reset bp ≡ some bp' → IsValid bp'
unfolding reset
reset-IsValid v e = ground arith
