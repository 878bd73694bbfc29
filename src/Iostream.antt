-- ===== src/Iostream.antt =====
-- library/iostream.c: streams made of buffers and descriptors. A stream is read from its substreams one
-- after the other, and written to all of them. What the kernel does with a descriptor is part of the
-- state; `Parts` has the substreams, and this file the stream.
pub mod Parts
pub mod ReadAll
pub mod Reading
pub mod Writing
pub mod Whole
mod Tests
use twopence.Prelude.{
  ℕ, zero, suc, Bool, true, false, not, ◌||◌, Option, none, some, List, [], ◌∷◌, ◌++◌, length, leb,
  ◌==◌, if◌then◌else◌,
}
use twopence.Buffer.{Buf}
use twopence.Iostream.Parts.{
  Substream, Target, new_fd, new_buffer, close_sub, target_read, target_write, target_size,
  target_fd, target_set_blocking,
}

-- `struct twopence_iostream`; `count` is the length of the list.
pub record Iostream : Type 0 where
  pub eof : Bool
  pub substreams : List Substream

abbrev pub max_substreams : ℕ
max_substreams = 4

-- `twopence_iostream_new`
abbrev pub iostream_new : Iostream
iostream_new = record { eof = false; substreams = [] }

-- `twopence_iostream_add_substream`
unfoldable pub add_substream : Iostream → Substream → Iostream
add_substream stream sub =
    if leb max_substreams (length stream.substreams)
    then stream
    else record stream { substreams = stream.substreams ++ sub ∷ [] }

-- What `open` returns: a descriptor, or -1 with `errno`.
pub data Opened : Type 0 where
  opened : ℕ → Opened
  failed : ℕ → Opened

-- `__twopence_iostream_open_file`: the new stream, or the number of the error, whose sign is left out;
-- 36 is ENAMETOOLONG. `file` is what stands behind the descriptor.
pub data OpenResult : Type 0 where
  made : Iostream → OpenResult
  refused : ℕ → OpenResult

unfoldable pub open_file : (ℕ → Bool → Substream) → Opened → OpenResult
unfolding add_substream
open_file file (opened fd) = made (add_substream iostream_new (file fd true))
open_file file (failed errno) = refused (if errno == 36 then 1 else 7)

-- `twopence_iostream_wrap_fd` and `twopence_iostream_wrap_buffer`
unfoldable pub wrap_fd : (ℕ → Bool → Substream) → ℕ → Bool → Iostream
unfolding add_substream
wrap_fd file fd closeit = add_substream iostream_new (file fd closeit)

unfoldable pub wrap_buffer : Option Buf → Bool → Iostream
unfolding add_substream new_buffer
wrap_buffer bp resizable = add_substream iostream_new (new_buffer bp resizable)

-- `twopence_iostream_destroy`: the substreams as they are closed, and the cleared stream.
abbrev pub close_all : List Substream → List Substream
close_all [] = []
close_all (sub ∷ rest) = close_sub sub ∷ close_all rest

unfoldable pub destroy : Iostream → List Substream × Iostream
destroy stream = (close_all stream.substreams, iostream_new)

-- `twopence_iostream_filesize`: the outer none is the access through the NULL pointer that `ops` is in
-- a closed substream, the inner one a negative number.
unfoldable pub filesize : Iostream → Option (Option ℕ)
filesize stream = elim stream.substreams [
  | [] ↦ some none
  | sub ∷ rest ↦ elim rest [
    | [] ↦ if sub.has_ops then some (target_size sub.target) else none
    | _ ∷ _ ↦ some none
  ]
]

-- `twopence_iostream_set_blocking`: the result of the last substream, none is -1.
abbrev pub set_all : List Substream → Bool → Option Bool → Option Bool × List Substream
set_all [] blocking was = (was, [])
set_all (sub ∷ rest) blocking was =
    let (w, t) = target_set_blocking sub.target blocking in
    let later = set_all rest blocking (if sub.has_ops then w else was) in
    (later.0, (if sub.has_ops then record sub { target = t } else sub) ∷ later.1)

unfoldable pub set_blocking : Iostream → Bool → Option Bool × Iostream
set_blocking stream blocking =
    let (was, subs) = set_all stream.substreams blocking (some false) in
    if stream.eof then (some false, stream) else (was, record stream { substreams = subs })

-- `twopence_iostream_poll`: the descriptor to poll, the end of the data (0), or an error (-1).
pub data Polled : Type 0 where
  wait : ℕ → Polled
  at_end bad : Polled

abbrev pub poll_first : List Substream → Polled
poll_first [] = at_end
poll_first (sub ∷ rest) =
    let later = poll_first rest in
    if not sub.has_ops
    then later
    else elim (target_fd sub.target) [ none ↦ at_end | some none ↦ bad | some (some fd) ↦ wait fd ]

unfoldable pub poll : Option Iostream → Bool → Polled
poll none pollout = bad
poll (some stream) pollout =
    if stream.eof || length stream.substreams == 0
    then at_end
    else if pollout
    then bad
    else poll_first stream.substreams

-- `twopence_iostream_getfd`: none is -1.
unfoldable pub getfd : Option Iostream → Option ℕ
getfd none = none
getfd (some stream) = if stream.eof then none else elim stream.substreams [
  | [] ↦ none
  | sub ∷ rest ↦ elim rest [
    | _ ∷ _ ↦ none
    | [] ↦
        if not sub.has_ops then none else elim (target_fd sub.target) [ none ↦ none | some fd ↦ fd ]
  ]
]

-- What the loop over the substreams finds: data, an error, or the end of all of them.
pub data Got : Type 0 where
  bytes : List ℕ → Got
  trouble exhausted : Got

-- The loop of `twopence_iostream_read`: what a substream gives decides whether it goes on.
abbrev pub next_piece :
    Substream → List Substream → Got × List Substream → Option (List ℕ) → Got × List Substream
next_piece sub rest later none = (trouble, sub ∷ rest)
next_piece sub rest later (some []) = (later.0, close_sub sub ∷ later.1)
next_piece sub rest later (some (c ∷ cs)) = (bytes (c ∷ cs), sub ∷ rest)

unfoldable pub read_loop : List Substream → ℕ → Got × List Substream
read_loop [] len = (exhausted, [])
read_loop (sub ∷ rest) len =
    let later = read_loop rest len in
    let (r, t) = target_read sub.target len in
    if not sub.has_ops
    then (later.0, sub ∷ later.1)
    else next_piece (record sub { target = t }) rest later r

abbrev pub read_end : Iostream → Got × List Substream → Option (List ℕ) × Iostream
read_end stream (bytes d, subs) = (some d, record stream { substreams = subs })
read_end stream (trouble, subs) = (none, record stream { substreams = subs })
read_end stream (exhausted, subs) = (some [], record { eof = true; substreams = subs })

-- `twopence_iostream_read`: none is a negative number, the empty list 0.
unfoldable pub read : Iostream → ℕ → Option (List ℕ) × Iostream
read stream len =
    if stream.eof || length stream.substreams == 0
    then (some [], stream)
    else read_end stream (read_loop stream.substreams len)

-- The loop of `twopence_iostream_getc`, where an error ends a substream too.
abbrev pub next_char :
    Substream
    → List Substream
    → Option ℕ × List Substream
    → Option (List ℕ)
    → Option ℕ × List Substream
next_char sub rest later none = (later.0, close_sub sub ∷ later.1)
next_char sub rest later (some []) = (later.0, close_sub sub ∷ later.1)
next_char sub rest later (some (c ∷ cs)) = (some c, sub ∷ rest)

unfoldable pub getc_loop : List Substream → Option ℕ × List Substream
getc_loop [] = (none, [])
getc_loop (sub ∷ rest) =
    let later = getc_loop rest in
    let (r, t) = target_read sub.target 1 in
    if not sub.has_ops
    then (later.0, sub ∷ later.1)
    else next_char (record sub { target = t }) rest later r

-- `twopence_iostream_getc`: none is EOF; at the end of the substreams it returns 0.
abbrev pub getc_end : Iostream → Option ℕ × List Substream → Option ℕ × Iostream
getc_end stream (some c, subs) = (some c, record stream { substreams = subs })
getc_end stream (none, subs) = (some 0, record { eof = true; substreams = subs })

unfoldable pub getc : Iostream → Option ℕ × Iostream
getc stream =
    if stream.eof || length stream.substreams == 0
    then (none, stream)
    else getc_end stream (getc_loop stream.substreams)

-- The loop of `twopence_iostream_write` and of `twopence_iostream_putc`: whether it gets to the end.
-- none is the access to a buffer that is NULL. What a substream returns is not looked at.
unfoldable pub write_loop : (ℕ → List ℕ) → List Substream → List ℕ → Option (Bool × List Substream)
write_loop fresh [] d = some (true, [])
write_loop fresh (sub ∷ rest) d =
    let later = write_loop fresh rest d in
    if not sub.has_ops then some (false, sub ∷ rest) else elim (target_write fresh sub.target d) [
      | none ↦ none
      | some t ↦ elim later [
        | none ↦ none
        | some (done, rest') ↦ some (done, record sub { target = t } ∷ rest')
      ]
    ]

abbrev pub written : Iostream → ℕ → Option (Bool × List Substream) → Option (Option ℕ × Iostream)
written stream n none = none
written stream n (some (true, subs)) = some (some n, record stream { substreams = subs })
written stream n (some (false, subs)) = some (none, record stream { substreams = subs })

-- `twopence_iostream_write` and `twopence_iostream_putc`: the inner none is -1.
unfoldable pub write : (ℕ → List ℕ) → Iostream → List ℕ → Option (Option ℕ × Iostream)
write fresh stream d =
    if length stream.substreams == 0
    then some (some 0, stream)
    else written stream (length d) (write_loop fresh stream.substreams d)

unfoldable pub putc : (ℕ → List ℕ) → Iostream → ℕ → Option (Option ℕ × Iostream)
putc fresh stream c =
    if length stream.substreams == 0
    then some (some 0, stream)
    else written stream 1 (write_loop fresh stream.substreams (c ∷ []))
