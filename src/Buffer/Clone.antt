-- ===== src/Buffer/Clone.antt =====
-- `twopence_buf_clone` of library/buffer.c: a new block with the same bytes.
use twopence.Prelude.{
  ℕ, ◌<◌, ◌≡◌, refl, sym, ap, ◌∙◌, subst, List, [], ◌++◌, length, take, u32_mod, arith, take-take,
}
use twopence.Buffer.{Buf, head_mem, count, new, append, clone}
use twopence.Buffer.Bounds.{IsValid, IsReadable, count_lem, new-IsValid}
use twopence.Buffer.Contents.{contents, length-contents, append_fits}

append-take : (bp : Buf) (d : List ℕ) (n : ℕ) → append bp (take n d) n ≡ append bp d n
unfolding append
append-take bp d n = ground (arith, take-take n n d (omega arith))

new_fields :
    (n : ℕ)
    → n < u32_mod
    → ((new n).head ≡ 0) × ((new n).tail ≡ 0) × ((new n).size ≡ n) × (contents (new n) ≡ [])
unfolding new
new_fields n h = (refl, refl, omega arith, refl)

-- The clone of a readable buffer is valid and holds the same bytes, from the start of its block.
pub clone-contents :
    {bp : Buf}
    → IsReadable bp
    → (contents (clone bp) ≡ contents bp)
      × IsValid (clone bp)
      × ((clone bp).head ≡ 0)
      × ((clone bp).tail ≡ count bp)
unfolding clone
clone-contents {bp} v =
    let n : ℕ = count bp in
    let small : n < u32_mod = omega (arith, count_lem v) in
    let (h, t, s, c) = new_fields n small in
    let taken : take n (head_mem bp) ≡ contents bp = ap (λ k. take k (head_mem bp)) (count_lem v) in
    let (done, bytes, head, tail, size, valid) =
      append_fits (take n (head_mem bp)) n (new-IsValid n small)
        (count_lem v ∙ sym (length-contents v) ∙ ap length (sym taken)) (omega (arith, t, s)) in
    subst (λ b. (contents b ≡ contents bp) × IsValid b × (b.head ≡ 0) × (b.tail ≡ n))
      (ap (λ r. r.1) (append-take (new n) (head_mem bp) n))
      (
        bytes ∙ ap (λ l. l ++ take n (head_mem bp)) c ∙ taken,
        valid,
        head ∙ h,
        tail ∙ omega (arith, t),
      )
