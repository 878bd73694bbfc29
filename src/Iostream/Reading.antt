-- ===== src/Iostream/Reading.antt =====
-- Reading a stream of library/iostream.c: the bytes come in the order of the substreams, none is lost or
-- repeated, and the end is found when there are no more.
use twopence.Prelude.{
  ℕ, zero, suc, ◌+◌, ◌-◌, ◌≤◌, ◌<◌, ◌≡◌, ◌⊎◌, refl, sym, ap, ◌∙◌, Bool, true, false, Option, none,
  some, List, [], ◌∷◌, ◌++◌, length, take, drop, slice, arith, append_assoc, ap₂, take-append-drop,
  length-take, take-take, length-slice, ltb, ◌==◌, if◌then◌else◌, inl, inr,
}
use twopence.Buffer.{Buf, count, advance_head}
use twopence.Buffer.Bounds.{IsReadable, count_lem}
use twopence.Buffer.Contents.{contents}
use twopence.Buffer.Refine.{slice-add}
use twopence.Iostream.Parts.{
  Substream, Target, File, buffer, file, close_sub, target_read, buffer_read, file_read, advanced,
  leftover,
}
use twopence.Iostream.{Iostream, Got, bytes, exhausted, next_piece, read_loop, read_end, read}
use twopence.Iostream.ReadAll.{pieces, held, pending}

-- Input with no error in front of its end.
abbrev pub IsClean : List (Option (List ℕ)) → Type 0
IsClean [] = Unit {0}
IsClean (none ∷ rest) = ⊥
IsClean (some [] ∷ rest) = Unit {0}
IsClean (some (c ∷ cs) ∷ rest) = IsClean rest

-- What can be read without an error.
abbrev pub IsSource : Target → Type 0
IsSource (buffer none resizable) = ⊥
IsSource (buffer (some bp) resizable) = IsReadable bp
IsSource (file f) = (n : ℕ) × (f.fd ≡ some n) × IsClean f.incoming

abbrev pub AllSources : List Substream → Type 0
AllSources [] = Unit {0}
AllSources (sub ∷ rest) = (sub.has_ops ≡ true → IsSource sub.target) × AllSources rest

abbrev pub AllClosed : List Substream → Type 0
AllClosed [] = Unit {0}
AllClosed (sub ∷ rest) = (sub.has_ops ≡ false) × AllClosed rest

-- One call of `read` on a substream: the end, or some bytes off the front of what it holds.
data Took (t : Target) (len : ℕ) : Option (List ℕ) × Target → Type 0 where
  ended : (t' : Target) → held t ≡ [] → Took t len (some [], t')
  gave :
      (c : ℕ) (cs : List ℕ) (t' : Target)
      → held t ≡ (c ∷ cs) ++ held t'
      → IsSource t'
      → length (c ∷ cs) ≤ len
      → Took t len (some (c ∷ cs), t')

pieces-leftover :
    (d : List ℕ) (rest : List (Option (List ℕ))) → pieces (leftover d rest) ≡ d ++ pieces rest
pieces-leftover [] rest = refl
pieces-leftover (c ∷ cs) rest = refl

IsClean-leftover :
    (d : List ℕ) (rest : List (Option (List ℕ))) → IsClean rest → IsClean (leftover d rest)
IsClean-leftover [] rest h = h
IsClean-leftover (c ∷ cs) rest h = h

-- A read of at least a byte from a non-empty list.
rest_bytes :
    (t : Target) (len : ℕ) (d : List ℕ) (t' : Target)
    → 0 < length d
    → held t ≡ d ++ held t'
    → IsSource t'
    → length d ≤ len
    → Took t len (some d, t')
rest_bytes t len [] t' h e s l = absurd (omega arith)
rest_bytes t len (c ∷ cs) t' h e s l = gave c cs t' e s l

file_read-Took :
    (f : File) (len n : ℕ) (input : List (Option (List ℕ)))
    → f.incoming ≡ input
    → f.fd ≡ some n
    → IsClean input
    → 0 < len
    → Took (file f) len (target_read (file f) len)
unfolding file_read
file_read-Took f zero n input i o h l = absurd (omega arith)
file_read-Took f (suc k) n [] i o h l = rw (o, file_read) (rw i (ended _ refl))
file_read-Took f (suc k) n (none ∷ rest) i o h l = absurd h
file_read-Took f (suc k) n (some [] ∷ rest) i o h l = rw (o, file_read) (rw i (ended _ refl))
file_read-Took f (suc k) n (some (c ∷ cs) ∷ rest) i o h l =
    rw (o, file_read)
      (rw i (
        gave c (take k cs) _
          (ap (◌∷◌ c) (
            ap (λ x. x ++ pieces rest) (sym (take-append-drop k cs))
            ∙ append_assoc (take k cs) (drop k cs) (pieces rest)
            ∙ ap (◌++◌ (take k cs)) (sym (pieces-leftover (drop k cs) rest))))
          (n, o, IsClean-leftover (drop k cs) rest h) (omega (arith, length-take k cs))))

advanced-eq :
    {bp : Buf} (n : ℕ)
    → IsReadable bp
    → n ≤ bp.tail - bp.head
    → advanced bp n ≡ record bp { head = bp.head + n }
unfolding advance_head
advanced-eq {bp} n v h = ground (arith, count_lem v)

-- The front of a window, and what is left of it.
advanced_lem :
    {bp : Buf} (n : ℕ)
    → IsReadable bp
    → n ≤ bp.tail - bp.head
    → IsReadable (advanced bp n)
      × (contents bp ≡ slice bp.base bp.head n ++ contents (advanced bp n))
advanced_lem {bp} n v h = rw (advanced-eq n v h) (
  omega arith,
  sym (take-append-drop n (contents bp))
      ∙ ap₂ (◌++◌) (take-take n (bp.tail - bp.head) (drop bp.head bp.base) h)
          (slice-add bp.base bp.head n bp.tail (omega arith)),
)

buffer_rest :
    (bp : Buf) (resizable : Bool) (len n : ℕ)
    → IsReadable bp
    → 0 < len
    → n ≤ len
    → n ≤ bp.tail - bp.head
    → (n ≡ 0 → bp.tail - bp.head ≡ 0)
    → Took
        (buffer (some bp) resizable)
        len
        (some (slice bp.base bp.head n), buffer (some (advanced bp n)) resizable)
buffer_rest bp resizable len zero v l le h none_left =
    ended _ (ap (λ k. slice bp.base bp.head k) (none_left refl))
buffer_rest bp resizable len (suc k) v l le h none_left =
    let (v', split) = advanced_lem (suc k) v h in
    let len_lem : length (slice bp.base bp.head (suc k)) ≡ suc k =
      length-slice bp.base bp.head (suc k) (omega arith) in
    rest_bytes (buffer (some bp) resizable) len (slice bp.base bp.head (suc k)) _
      (omega (arith, len_lem)) split v' (omega (arith, len_lem))

buffer_read-Took :
    (bp : Buf) (resizable : Bool) (len : ℕ)
    → IsReadable bp
    → 0 < len
    → Took (buffer (some bp) resizable) len (target_read (buffer (some bp) resizable) len)
unfolding buffer_read
buffer_read-Took bp resizable len v l =
    let n = if ltb (count bp) len then count bp else len in
    buffer_rest bp resizable len n v l (ground (arith, count_lem v)) (ground (arith, count_lem v))
      (ground (arith, count_lem v))

target_read-Took : (t : Target) (len : ℕ) → IsSource t → 0 < len → Took t len (target_read t len)
target_read-Took (buffer none resizable) len s l = absurd s
target_read-Took (buffer (some bp) resizable) len s l = buffer_read-Took bp resizable len s l
target_read-Took (file f) len (n, o, h) l = file_read-Took f len n f.incoming refl o h l

-- The loop finds the end of all substreams, or bytes off the front of what they hold.
data Found (subs : List Substream) (len : ℕ) : Got × List Substream → Type 0 where
  nothing :
      (subs' : List Substream)
      → pending subs ≡ []
      → AllClosed subs'
      → length subs' ≡ length subs
      → Found subs len (exhausted, subs')
  some_bytes :
      (c : ℕ) (cs : List ℕ) (subs' : List Substream)
      → pending subs ≡ (c ∷ cs) ++ pending subs'
      → AllSources subs'
      → length subs' ≡ length subs
      → length (c ∷ cs) ≤ len
      → Found subs len (bytes (c ∷ cs), subs')

-- Past a substream that is closed.
skip_closed :
    (t : Target) (rest : List Substream) (len : ℕ) (g : Got) (rest' : List Substream) (t' : Target)
    → Found rest len (g, rest')
    → Found
        (record { has_ops = false; target = t } ∷ rest)
        len
        (g, record { has_ops = false; target = t' } ∷ rest')
skip_closed t rest len g rest' t' (nothing subs' p q n) = nothing _ p (refl, q) (ap suc n)
skip_closed t rest len g rest' t' (some_bytes c cs subs' p s n l) =
    some_bytes c cs _ p (λ e. absurd (cc e), s) (ap suc n) l

read_next :
    (t : Target) (rest : List Substream) (len : ℕ) (r : Option (List ℕ) × Target)
    (later : Got × List Substream)
    → AllSources rest
    → Took t len r
    → Found rest len later
    → Found
        (record { has_ops = true; target = t } ∷ rest)
        len
        (next_piece (record { has_ops = true; target = r.1 }) rest later r.0)
unfolding close_sub
read_next t rest len r later s (ended t' e) (nothing subs' p q n) =
    nothing _ (ap₂ (◌++◌) e p) (refl, q) (ap suc n)
read_next t rest len r later s (ended t' e) (some_bytes c cs subs' p s' n l) =
    some_bytes c cs _ (ap₂ (◌++◌) e p) (λ h. absurd (cc h), s') (ap suc n) l
read_next t rest len r later s (gave c cs t' e s' l) f =
    some_bytes c cs _
      (ap (λ x. x ++ pending rest) e ∙ append_assoc (c ∷ cs) (held t') (pending rest)) (λ h. s', s)
      refl l

read_sub :
    (b : Bool) (t : Target) (rest : List Substream) (len : ℕ)
    → AllSources (record { has_ops = b; target = t } ∷ rest)
    → 0 < len
    → Found rest len (read_loop rest len)
    → Found
        (record { has_ops = b; target = t } ∷ rest)
        len
        (read_loop (record { has_ops = b; target = t } ∷ rest) len)
unfolding read_loop
read_sub false t rest len s l f = skip_closed t rest len _ _ t f
read_sub true t rest len s l f =
    read_next t rest len (target_read t len) (read_loop rest len) (s.1)
      (target_read-Took t len (s.0 refl) l) f

read_loop-Found :
    (subs : List Substream) (len : ℕ)
    → AllSources subs
    → 0 < len
    → Found subs len (read_loop subs len)
unfolding read_loop
read_loop-Found [] len s l = nothing [] refl tt refl
read_loop-Found (sub ∷ rest) len s l =
    read_sub sub.has_ops sub.target rest len s l (read_loop-Found rest len (s.1) l)

-- A read brings bytes off the front of what the stream holds, no more than asked for; no bytes and the
-- mark at the end, if there are none.
pub data Reads (stream : Iostream) (len : ℕ) : Option (List ℕ) × Iostream → Type 0 where
  at_end :
      (stream' : Iostream)
      → pending stream.substreams ≡ []
      → (stream'.eof ≡ true) ⊎ (stream.substreams ≡ [])
      → AllClosed stream'.substreams
      → length stream'.substreams ≡ length stream.substreams
      → Reads stream len (some [], stream')
  brings :
      (c : ℕ) (cs : List ℕ) (stream' : Iostream)
      → pending stream.substreams ≡ (c ∷ cs) ++ pending stream'.substreams
      → AllSources stream'.substreams
      → stream'.eof ≡ false
      → length stream'.substreams ≡ length stream.substreams
      → length (c ∷ cs) ≤ len
      → Reads stream len (some (c ∷ cs), stream')

read_end-Reads :
    (stream : Iostream) (len : ℕ) (r : Got × List Substream)
    → stream.eof ≡ false
    → Found stream.substreams len r
    → Reads stream len (read_end stream r)
read_end-Reads stream len r open_ (nothing subs' p q n) = at_end _ p (inl refl) q n
read_end-Reads stream len r open_ (some_bytes c cs subs' p s n l) = brings c cs _ p s open_ n l

read_of :
    (b : Bool) (subs : List Substream) (len : ℕ)
    → b ≡ false
    → AllSources subs
    → 0 < len
    → Reads
        (record { eof = b; substreams = subs })
        len
        (read (record { eof = b; substreams = subs }) len)
unfolding read
read_of true subs len e s l = absurd (cc e)
read_of false [] len e s l = at_end _ refl (inr refl) tt refl
read_of false (sub ∷ rest) len e s l =
    let r : Found (sub ∷ rest) len (read_loop (sub ∷ rest) len) =
      read_loop-Found (sub ∷ rest) len s l in
    let more : (length (sub ∷ rest) == 0) ≡ false = ground arith in
    rw more (read_end-Reads _ len _ refl r)

-- A read of at least one byte, from a stream that is not at its end and whose substreams can be
-- read without an error, returns either the next bytes of the stream, at least one and no more
-- than asked for, and leaves the rest of them and the stream open, or no bytes: then none were
-- there, all substreams are closed, and the stream is at its end unless it has no substreams.
pub read-Reads :
    (stream : Iostream) (len : ℕ)
    → stream.eof ≡ false
    → AllSources stream.substreams
    → 0 < len
    → Reads stream len (read stream len)
read-Reads stream len e s l = read_of stream.eof stream.substreams len e s l
