-- ===== src/Iostream/Writing.antt =====
-- Writing to a stream of library/iostream.c: every substream gets the bytes, a buffer that may grow all
-- of them, a buffer of fixed size what fits.
use twopence.Prelude.{
  ℕ, ◌+◌, ◌-◌, ◌^◌, ◌≤◌, ◌<◌, ◌≡◌, refl, sym, ap, ◌∙◌, subst, Bool, true, false, Option, none, some,
  List, [], ◌∷◌, ◌++◌, length, take, arith, ltb, ◌==◌, length-take, take-take, append-nil,
  Option-cases, take-all, length-blit, Bool-cases, inl, inr, add_u32, ltb→lt, ltb→le,
}
use twopence.Buffer.{Buf, tailroom, append, ensure_tailroom}
use twopence.Buffer.Bounds.{IsValid, tailroom_lem}
use twopence.Buffer.Contents.{contents, append_fits}
use twopence.Buffer.Resize.{IsBlock, Resized, resize-Resized}
use twopence.Iostream.Parts.{
  Substream, Target, File, buffer, file, with_room, buffer_put, buffer_write, file_write,
  target_write, took,
}
use twopence.Iostream.{Iostream, write_loop, write}

-- A valid buffer whose block has exactly its size.
pub record IsWhole (bp : Buf) : Type 0 where
  pub valid : IsValid bp
  pub full : length bp.base ≡ bp.size

-- A buffer that has been appended to.
pub record Grown (bp : Buf) (d : List ℕ) (bp' : Buf) : Type 0 where
  pub whole : IsWhole bp'
  pub at_end : contents bp' ≡ contents bp ++ d
  pub tail : bp'.tail ≡ bp.tail + length d

ensure_tailroom-Resized :
    (fresh : ℕ → List ℕ) (bp : Buf) (n : ℕ)
    → IsBlock fresh
    → IsWhole bp
    → bp.tail + n < 2 ^ 31
    → (bp' : Buf) × (ensure_tailroom fresh bp n ≡ some bp') × Resized bp bp' (bp.tail + n)
unfolding ensure_tailroom
ensure_tailroom-Resized fresh bp n block w small = elim (Bool-cases (ltb (tailroom bp) n)) [
  | inl h ↦
      let e : add_u32 bp.tail n ≡ bp.tail + n = omega arith in
      let (bp', done, r) = resize-Resized fresh bp (bp.tail + n) block w.valid w.full small in
      (bp', rw h (rw e done), r)
  | inr h ↦ (
    bp,
    rw h refl,
    record {
      valid = w.valid;
      same = refl;
      enough = omega (arith, ltb→le (tailroom bp) n h, tailroom_lem w.valid);
      grown = omega arith;
      full = w.full;
      indices = (refl, refl);
    },
  )
]

pub with_room-Resized :
    (fresh : ℕ → List ℕ) (bp : Buf) (n : ℕ)
    → IsBlock fresh
    → IsWhole bp
    → bp.tail + n < 2 ^ 31
    → Resized bp (with_room fresh bp n) (bp.tail + n)
with_room-Resized fresh bp n block w small =
    let (bp', done, r) = ensure_tailroom-Resized fresh bp n block w small in rw (done, with_room) r

append-Grown :
    {bp : Buf} (d : List ℕ)
    → IsWhole bp
    → bp.tail + length d ≤ bp.size
    → Grown bp d (append bp d (length d)).1
unfolding append
append-Grown {bp} d w h =
    let (done, at_end, head, tail, size, valid) = append_fits d (length d) w.valid refl h in
    record {
      whole = record {
        valid = valid;
        full = ground (arith, length-blit bp.base bp.tail (take (length d) d));
      };
      at_end = at_end;
      tail = tail;
    }

-- Making room and then appending: what a loop that collects bytes does.
pub append-with_room :
    (fresh : ℕ → List ℕ) (bp : Buf) (d : List ℕ)
    → IsBlock fresh
    → IsWhole bp
    → bp.tail + length d < 2 ^ 31
    → Grown bp d (append (with_room fresh bp (length d)) d (length d)).1
append-with_room fresh bp d block w small =
    let r : Resized bp (with_room fresh bp (length d)) (bp.tail + length d) =
      with_room-Resized fresh bp (length d) block w small in
    let g : Grown (with_room fresh bp (length d)) d _ =
      append-Grown d (record { valid = r.valid; full = r.full })
        (omega (arith, r.enough, r.indices.1)) in
    record {
      whole = g.whole;
      at_end = g.at_end ∙ ap (λ c. c ++ d) r.same;
      tail = omega (arith, g.tail, r.indices.1);
    }

-- How much a descriptor takes of a write: nothing where it is not open or its answer is an error.
abbrev pub first_answer : List (Option ℕ) → ℕ
first_answer [] = 0
first_answer (none ∷ rest) = 0
first_answer (some n ∷ rest) = n

abbrev pub taken_by : Option ℕ → List (Option ℕ) → ℕ
taken_by none answers = 0
taken_by (some fd) answers = first_answer answers

abbrev pub accepts : File → ℕ
accepts f = taken_by f.fd f.answers

-- What a write of `d` makes of a substream: a buffer that may grow gets it all, another what fits, and a
-- descriptor what the kernel takes.
pub data Writes (d : List ℕ) : Target → Target → Type 0 where
  grows :
      (bp bp' : Buf) → Grown bp d bp' → Writes d (buffer (some bp) true) (buffer (some bp') true)
  fills :
      (bp bp' : Buf)
      → Grown bp (take (bp.size - bp.tail) d) bp'
      → Writes d (buffer (some bp) false) (buffer (some bp') false)
  passes :
      (f f' : File)
      → f'.wire ≡ f.wire ++ take (accepts f) d
      → f'.fd ≡ f.fd
      → Writes d (file f) (file f')

-- What can be written to without wrapping an index.
abbrev pub IsSink : ℕ → Target → Type 0
IsSink n (buffer none resizable) = ⊥
IsSink n (buffer (some bp) resizable) = IsWhole bp × (bp.tail + n < 2 ^ 31)
IsSink n (file f) = Unit {0}

abbrev pub AllSinks : ℕ → List Substream → Type 0
AllSinks n [] = Unit {0}
AllSinks n (sub ∷ rest) = (sub.has_ops ≡ true) × IsSink n sub.target × AllSinks n rest

abbrev pub AllWrite : List ℕ → List Substream → List Substream → Type 0
AllWrite d [] [] = Unit {0}
AllWrite d [] (s' ∷ rest') = ⊥
AllWrite d (s ∷ rest) [] = ⊥
AllWrite d (s ∷ rest) (s' ∷ rest') =
    (s'.has_ops ≡ true) × Writes d s.target s'.target × AllWrite d rest rest'

append_front :
    (bp : Buf) (d : List ℕ) (n : ℕ) → n ≤ length d → append bp d n ≡ append bp (take n d) n
unfolding append
append_front bp d n h = ground (arith, take-take n n d)

-- `__twopence_buffer_put` where everything fits, and where it does not.
buffer_put-Grown :
    {bp : Buf} (d : List ℕ)
    → IsWhole bp
    → bp.tail + length d ≤ bp.size
    → Grown bp d (buffer_put bp d)
unfolding buffer_put
buffer_put-Grown {bp} d w h = elim (Bool-cases (ltb (tailroom bp) (length d))) [
  | inl lt ↦ absurd (omega (arith, ltb→lt (tailroom bp) (length d) lt, tailroom_lem w.valid))
  | inr fits ↦ rw (fits, buffer_put) (append-Grown d w h)
]

buffer_put_fills :
    {bp : Buf} (d : List ℕ) → IsWhole bp → Grown bp (take (bp.size - bp.tail) d) (buffer_put bp d)
unfolding buffer_put
buffer_put_fills {bp} d w = elim (Bool-cases (ltb (tailroom bp) (length d))) [
  | inl lt ↦
      let n = bp.size - bp.tail in
      let more : n < length d =
        omega (arith, ltb→lt (tailroom bp) (length d) lt, tailroom_lem w.valid) in
      let len : length (take n d) ≡ n = omega (arith, length-take n d) in
      let g : Grown bp (take n d) (append bp (take n d) (length (take n d))).1 =
        append-Grown (take n d) w (omega (arith, len, w.valid.roomy)) in
      rw (lt, buffer_put)
        (rw (tailroom_lem w.valid) (
          rw (append_front bp d n (omega arith))
            (subst (λ k. Grown bp (take n d) (append bp (take n d) k).1) len g)))
  | inr fits ↦
      let all : length d ≤ bp.size - bp.tail =
        omega (arith, ltb→le (tailroom bp) (length d) fits, tailroom_lem w.valid) in
      rw (fits, buffer_put)
        (rw (take-all d (bp.size - bp.tail) all) (append-Grown d w (omega (arith, w.valid.roomy))))
]

buffer_write-Grown :
    (fresh : ℕ → List ℕ) (bp : Buf) (d : List ℕ)
    → IsBlock fresh
    → IsWhole bp
    → bp.tail + length d < 2 ^ 31
    → Grown bp d (buffer_write fresh bp true d)
unfolding buffer_write
buffer_write-Grown fresh bp d block w small =
    let r : Resized bp (with_room fresh bp (length d)) (bp.tail + length d) =
      with_room-Resized fresh bp (length d) block w small in
    let g : Grown (with_room fresh bp (length d)) d _ =
      buffer_put-Grown d (record { valid = r.valid; full = r.full })
        (omega (arith, r.enough, r.indices.1)) in
    record {
      whole = g.whole;
      at_end = g.at_end ∙ ap (λ c. c ++ d) r.same;
      tail = omega (arith, g.tail, r.indices.1);
    }

took-wire :
    (f : File) (d : List ℕ) (answers : List (Option ℕ))
    → ((took f d answers).wire ≡ f.wire ++ take (first_answer answers) d)
      × ((took f d answers).fd ≡ f.fd)
took-wire f d [] = (sym (append-nil f.wire), refl)
took-wire f d (none ∷ rest) = (sym (append-nil f.wire), refl)
took-wire f d (some n ∷ rest) = (refl, refl)

file_write-open :
    (f : File) (d : List ℕ) (fd : ℕ) → f.fd ≡ some fd → file_write f d ≡ took f d f.answers
unfolding file_write
file_write-open f d fd e = rw e refl

file_write-closed : (f : File) (d : List ℕ) → f.fd ≡ none → file_write f d ≡ f
unfolding file_write
file_write-closed f d e = rw e refl

file_write-wire :
    (f : File) (d : List ℕ)
    → ((file_write f d).wire ≡ f.wire ++ take (accepts f) d) × ((file_write f d).fd ≡ f.fd)
file_write-wire f d = elim (Option-cases f.fd) [
  | inl e ↦
      let same = file_write-closed f d e in
      (
        ap (λ (x : File). x.wire) same
            ∙ sym (append-nil f.wire)
            ∙ ap (λ o. f.wire ++ take (taken_by o f.answers) d) (sym e),
        ap (λ (x : File). x.fd) same,
      )
  | inr (fd, e) ↦
      let same = file_write-open f d fd e in
      let (w, o) = took-wire f d f.answers in
      (
        ap (λ (x : File). x.wire) same
            ∙ w
            ∙ ap (λ o. f.wire ++ take (taken_by o f.answers) d) (sym e),
        ap (λ (x : File). x.fd) same ∙ o,
      )
]

-- A write reaches one substream.
target_write-Writes :
    (fresh : ℕ → List ℕ) (t : Target) (d : List ℕ)
    → IsBlock fresh
    → IsSink (length d) t
    → (t' : Target) × (target_write fresh t d ≡ some t') × Writes d t t'
unfolding buffer_write
target_write-Writes fresh (buffer none resizable) d block s = absurd s
target_write-Writes fresh (buffer (some bp) true) d block s =
    (_, refl, grows bp _ (buffer_write-Grown fresh bp d block s.0 s.1))
target_write-Writes fresh (buffer (some bp) false) d block s =
    (_, refl, fills bp _ (buffer_put_fills d s.0))
target_write-Writes fresh (file f) d block s =
    let (w, o) = file_write-wire f d in (_, refl, passes f _ w o)

write_sub :
    (fresh : ℕ → List ℕ) (b : Bool) (t t' : Target) (rest rest' : List Substream) (d : List ℕ)
    → b ≡ true
    → target_write fresh t d ≡ some t'
    → write_loop fresh rest d ≡ some (true, rest')
    → write_loop fresh (record { has_ops = b; target = t } ∷ rest) d
      ≡ some (true, record { has_ops = b; target = t' } ∷ rest')
unfolding write_loop
write_sub fresh false t t' rest rest' d e done later = absurd (cc e)
write_sub fresh true t t' rest rest' d e done later = rw done (rw later refl)

write_loop-AllWrite :
    (fresh : ℕ → List ℕ) (subs : List Substream) (d : List ℕ)
    → IsBlock fresh
    → AllSinks (length d) subs
    → (subs' : List Substream) × (write_loop fresh subs d ≡ some (true, subs'))
      × AllWrite d subs subs'
unfolding write_loop
write_loop-AllWrite fresh [] d block s = ([], refl, tt)
write_loop-AllWrite fresh (sub ∷ rest) d block s =
    let (t', done, w) = target_write-Writes fresh sub.target d block s.1 in
    let (rest', later, ws) = write_loop-AllWrite fresh rest d block s.2 in
    (
      record sub { target = t' } ∷ rest',
      write_sub fresh sub.has_ops sub.target t' rest rest' d s.0 done later,
      (s.0, w, ws),
    )

-- Writing to a stream of at least one substream, all open, returns the length, and every substream
-- has been written to: a buffer that can be resized then holds the bytes behind what it had, a
-- buffer of fixed size as many as fit, and an open descriptor has taken as many of the first bytes
-- as the next answer of the kernel says, none where that is an error; buffers that grow must stay
-- within their bounds.
pub write-AllWrite :
    (fresh : ℕ → List ℕ) (stream : Iostream) (d : List ℕ)
    → IsBlock fresh
    → AllSinks (length d) stream.substreams
    → 0 < length stream.substreams
    → (stream' : Iostream) × (write fresh stream d ≡ some (some (length d), stream'))
      × AllWrite d stream.substreams stream'.substreams
      × (stream'.eof ≡ stream.eof)
unfolding write
write-AllWrite fresh stream d block s some_subs =
    let (subs', done, ws) = write_loop-AllWrite fresh stream.substreams d block s in
    let more : (length stream.substreams == 0) ≡ false = ground arith in
    (record stream { substreams = subs' }, rw more (rw done refl), ws, refl)
