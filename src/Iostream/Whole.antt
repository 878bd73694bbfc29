-- ===== src/Iostream/Whole.antt =====
-- `twopence_iostream_read_all` of library/iostream.c ends, with all bytes that the stream holds.
use twopence.Prelude.{
  ℕ, zero, suc, ◌+◌, ◌^◌, ◌<◌, ◌≡◌, refl, sym, ap, ◌∙◌, Bool, false, Option, none, some, List, [],
  ◌∷◌, ◌++◌, length, length-append, append-nil, append_assoc, arith, u32_mod, length-replicate,
}
use twopence.Buffer.{Buf, new}
use twopence.Buffer.Bounds.{new-IsValid}
use twopence.Buffer.Contents.{contents}
use twopence.Buffer.Resize.{IsBlock}
use twopence.Iostream.Parts.{Substream}
use twopence.Iostream.{Iostream, filesize, read}
use twopence.Iostream.ReadAll.{
  pending, Outcome, whole, fault, take_in, read_rounds, size_or, read_all,
}
use twopence.Iostream.Reading.{AllSources, AllClosed, Reads, at_end, brings, read-Reads}
use twopence.Iostream.Writing.{IsWhole, Grown, append-with_room}

-- The buffer that is returned holds `d`, and all `n` substreams have been closed.
abbrev pub Collected : List ℕ → ℕ → Outcome × Iostream → Type 0
Collected d n r =
    (bp : Buf) × (stream : Iostream) × (r ≡ (whole bp, stream))
    × (contents bp ≡ d)
    × IsWhole bp
    × AllClosed stream.substreams
    × (length stream.substreams ≡ n)

read_rounds-Collected :
    (fresh : ℕ → List ℕ) (f : ℕ) (stream : Iostream) (bp : Buf)
    → IsBlock fresh
    → stream.eof ≡ false
    → AllSources stream.substreams
    → IsWhole bp
    → length (pending stream.substreams) < f
    → bp.tail + length (pending stream.substreams) < 2 ^ 31
    → Collected
        (contents bp ++ pending stream.substreams)
        (length stream.substreams)
        (read_rounds f fresh stream bp)
unfolding read_rounds take_in
read_rounds-Collected fresh zero stream bp block o s w enough small = absurd (omega arith)
read_rounds-Collected fresh (suc f) stream bp block o s w enough small =
    go (read stream 8192) refl (read-Reads stream 8192 o s (omega arith))
      (λ stream' bp'. read_rounds-Collected fresh f stream' bp' block)
  where
    go :
        (r : Option (List ℕ) × Iostream)
        → read stream 8192 ≡ r
        → Reads stream 8192 r
        → ((stream' : Iostream) (bp' : Buf)
            → stream'.eof ≡ false
            → AllSources stream'.substreams
            → IsWhole bp'
            → length (pending stream'.substreams) < f
            → bp'.tail + length (pending stream'.substreams) < 2 ^ 31
            → Collected
                (contents bp' ++ pending stream'.substreams)
                (length stream'.substreams)
                (read_rounds f fresh stream' bp'))
        → Collected
            (contents bp ++ pending stream.substreams)
            (length stream.substreams)
            (read_rounds (suc f) fresh stream bp)
    go r e (at_end stream' p m q n) ih = (
      bp,
      stream',
      rw (ap (λ x. x.0) e, read_rounds) (rw (ap (λ x. x.1) e) refl),
      sym (append-nil (contents bp)) ∙ ap (◌++◌ (contents bp)) (sym p),
      w,
      q,
      n,
    )
    go r e (brings c cs stream' p s' o' n l) ih =
        let len : length (pending stream.substreams)
            ≡ length (c ∷ cs) + length (pending stream'.substreams) =
          ap length p ∙ length-append (c ∷ cs) (pending stream'.substreams) in
        let g : Grown bp (c ∷ cs) (take_in fresh bp (c ∷ cs)) =
          append-with_room fresh bp (c ∷ cs) block w (omega (arith, len)) in
        let (bp', stream2, done, eq, w', q, m) =
          ih stream' (take_in fresh bp (c ∷ cs)) o' s' g.whole (omega (arith, len))
            (omega (arith, len, g.tail)) in
        (
          bp',
          stream2,
          rw (ap (λ x. x.0) e, read_rounds) (rw (ap (λ x. x.1) e) done),
          eq
              ∙ ap (λ x. x ++ pending stream'.substreams) g.at_end
              ∙ append_assoc (contents bp) (c ∷ cs) (pending stream'.substreams)
              ∙ ap (◌++◌ (contents bp)) (sym p),
          w',
          q,
          m ∙ n,
        )

-- Reading all of a stream that is not at its end, whose substreams can be read without an error
-- and whose size can be asked for, returns a valid buffer that holds exactly the bytes of all
-- substreams in order, and leaves every substream closed; the size must fit 32 bits and the bytes
-- be fewer than 2^31.
pub read_all-Collected :
    (fresh : ℕ → List ℕ) (stream : Iostream) (size : Option ℕ)
    → IsBlock fresh
    → stream.eof ≡ false
    → AllSources stream.substreams
    → filesize stream ≡ some size
    → size_or size < u32_mod
    → length (pending stream.substreams) < 2 ^ 31
    → Collected (pending stream.substreams) (length stream.substreams) (read_all fresh stream)
unfolding read_all new
read_all-Collected fresh stream size block o s known narrow small =
    let n = size_or size in
    let w : IsWhole (new n) = record {
      valid = new-IsValid n narrow;
      full = omega (arith, length-replicate n (let z : ℕ = 0 in z));
    } in
    rw (known, read_all)
      (read_rounds-Collected fresh (suc (length (pending stream.substreams))) stream (new n) block o
        s w (omega arith) (omega arith))

closed_fault :
    (subs : List Substream) (b : Bool)
    → length subs ≡ 1
    → AllClosed subs
    → filesize (record { eof = b; substreams = subs }) ≡ none
unfolding filesize
closed_fault [] b n c = absurd (omega arith)
closed_fault (sub ∷ []) b n c = rw (c.0) refl
closed_fault (sub ∷ _ ∷ _) b n c = absurd (omega arith)

-- Under the conditions of read_all-Collected, if the stream has a single substream, a second call
-- is an access through NULL: the first call has closed the substream.
pub read_all_again :
    (fresh : ℕ → List ℕ) (stream : Iostream) (size : Option ℕ)
    → IsBlock fresh
    → stream.eof ≡ false
    → AllSources stream.substreams
    → filesize stream ≡ some size
    → size_or size < u32_mod
    → length (pending stream.substreams) < 2 ^ 31
    → length stream.substreams ≡ 1
    → let stream' = (read_all fresh stream).1 in read_all fresh stream' ≡ (fault, stream')
unfolding read_all
read_all_again fresh stream size block o s known narrow small one =
    let (bp, stream', done, eq, w, closed, n) =
      read_all-Collected fresh stream size block o s known narrow small in
    let e : (read_all fresh stream).1 ≡ stream' = ap (λ r. r.1) done in
    rw e (rw (closed_fault stream'.substreams stream'.eof (n ∙ one) closed, read_all) refl)
