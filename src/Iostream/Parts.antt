-- ===== src/Iostream/Parts.antt =====
-- The substreams of library/iostream.c: a buffer, or a descriptor with what the kernel does with it.
use twopence.Prelude.{
  ℕ, Bool, true, false, not, Option, none, some, List, [], ◌∷◌, ◌++◌, length, slice, take, drop,
  ltb, if◌then◌else◌,
}
use twopence.Buffer.{Buf, count, tailroom, advance_head, append, ensure_tailroom}

-- A descriptor, and the flag that it is closed with the stream; none is a negative number. `incoming`
-- are the results of the coming calls of `read` (none is -1, an empty piece the end of the data; a
-- piece that is longer than the room given is read in several calls), `answers` those of `write`.
-- `flags` is whether O_NONBLOCK is not set, none where F_GETFL fails.
pub record File : Type 0 where
  pub fd : Option ℕ
  pub closeit : Bool
  pub incoming : List (Option (List ℕ))
  pub answers : List (Option ℕ)
  pub wire : List ℕ
  pub regular_size : Option ℕ
  pub flags : Option Bool
  pub settable : Bool

-- What the functions in `ops` work on.
pub data Target : Type 0 where
  buffer : Option Buf → Bool → Target
  file : File → Target

-- `struct twopence_substream`: `ops` is not NULL until it is closed.
pub record Substream : Type 0 where
  pub has_ops : Bool
  pub target : Target

-- `twopence_substream_new_buffer` and `twopence_substream_new_fd`
unfoldable pub new_buffer : Option Buf → Bool → Substream
new_buffer bp resizable = record { has_ops = true; target = buffer bp resizable }

unfoldable pub new_fd : File → ℕ → Bool → Substream
new_fd f fd closeit = record {
  has_ops = true;
  target = file (record f { fd = some fd; closeit = closeit });
}

-- `twopence_iostream_stdout` and `twopence_iostream_stderr`
unfoldable pub stdout : File → Substream
unfolding new_fd
stdout f = new_fd f 1 false

unfoldable pub stderr : File → Substream
unfolding new_fd
stderr f = new_fd f 2 false

-- `twopence_substream_file_close`, and `twopence_substream_close`
abbrev pub target_close : Target → Target
target_close (buffer bp resizable) = buffer bp resizable
target_close (file f) = file (if f.closeit then record f { fd = none } else f)

unfoldable pub close_sub : Substream → Substream
close_sub sub =
    if not sub.has_ops then sub else record { has_ops = false; target = target_close sub.target }

-- `__twopence_buffer_put`
unfoldable pub buffer_put : Buf → List ℕ → Buf
buffer_put bp d =
    let len = if ltb (tailroom bp) (length d) then tailroom bp else length d in (append bp d len).1

-- `ensure_tailroom`, whose assertion is that a block is picked that is large enough.
abbrev pub with_room : (ℕ → List ℕ) → Buf → ℕ → Buf
with_room fresh bp len = elim (ensure_tailroom fresh bp len) [ none ↦ bp | some bp' ↦ bp' ]

-- `twopence_substream_buffer_write`
unfoldable pub buffer_write : (ℕ → List ℕ) → Buf → Bool → List ℕ → Buf
unfolding buffer_put
buffer_write fresh bp resizable d =
    buffer_put (if resizable then with_room fresh bp (length d) else bp) d

-- `twopence_substream_buffer_read`
abbrev pub advanced : Buf → ℕ → Buf
advanced bp n = elim (advance_head bp n) [ none ↦ bp | some bp' ↦ bp' ]

unfoldable pub buffer_read : Buf → ℕ → List ℕ × Buf
buffer_read bp len =
    let n = if ltb (count bp) len then count bp else len in (slice bp.base bp.head n, advanced bp n)

-- `twopence_substream_file_write`: the result is not used.
abbrev pub took : File → List ℕ → List (Option ℕ) → File
took f d [] = f
took f d (none ∷ rest) = record f { answers = rest }
took f d (some n ∷ rest) = record f { answers = rest; wire = f.wire ++ take n d }

unfoldable pub file_write : File → List ℕ → File
file_write f d = elim f.fd [ none ↦ f | some fd ↦ took f d f.answers ]

-- `twopence_substream_file_read`
abbrev pub leftover : List ℕ → List (Option (List ℕ)) → List (Option (List ℕ))
leftover [] rest = rest
leftover (c ∷ cs) rest = some (c ∷ cs) ∷ rest

abbrev pub delivered : File → ℕ → List (Option (List ℕ)) → Option (List ℕ) × File
delivered f len [] = (some [], f)
delivered f len (none ∷ rest) = (none, record f { incoming = rest })
delivered f len (some d ∷ rest) =
    (some (take len d), record f { incoming = leftover (drop len d) rest })

unfoldable pub file_read : File → ℕ → Option (List ℕ) × File
file_read f len = elim f.fd [ none ↦ (none, f) | some fd ↦ delivered f len f.incoming ]

-- `twopence_substream_file_size` and `twopence_substream_buffer_size`: none is -1.
abbrev pub target_size : Target → Option ℕ
target_size (buffer none resizable) = none
target_size (buffer (some bp) resizable) = some (count bp)
target_size (file f) = elim f.fd [ none ↦ none | some fd ↦ f.regular_size ]

-- `twopence_substream_file_getfd`, which a buffer has not: none is the NULL pointer.
abbrev pub target_fd : Target → Option (Option ℕ)
target_fd (buffer bp resizable) = none
target_fd (file f) = some f.fd

-- The two functions `set_blocking`: whether it was blocking before; none is -1.
unfoldable pub file_set_blocking : File → Bool → Option Bool × File
file_set_blocking f blocking = elim f.fd [
  | none ↦ (some false, f)
  | some fd ↦ elim f.flags [
    | none ↦ (none, f)
    | some was ↦ if f.settable then (some was, record f { flags = some blocking }) else (none, f)
  ]
]

abbrev pub target_set_blocking : Target → Bool → Option Bool × Target
target_set_blocking (buffer bp resizable) blocking = (some false, buffer bp resizable)
target_set_blocking (file f) blocking =
    let (was, f') = file_set_blocking f blocking in (was, file f')

-- The functions `read` and `write`; a write to a NULL buffer is none.
abbrev pub target_read : Target → ℕ → Option (List ℕ) × Target
target_read (buffer none resizable) len = (none, buffer none resizable)
target_read (buffer (some bp) resizable) len =
    let (d, bp') = buffer_read bp len in (some d, buffer (some bp') resizable)
target_read (file f) len = let (d, f') = file_read f len in (d, file f')

abbrev pub target_write : (ℕ → List ℕ) → Target → List ℕ → Option Target
target_write fresh (buffer none resizable) d = none
target_write fresh (buffer (some bp) resizable) d =
    some (buffer (some (buffer_write fresh bp resizable d)) resizable)
target_write fresh (file f) d = some (file (file_write f d))
