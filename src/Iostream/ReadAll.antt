-- ===== src/Iostream/ReadAll.antt =====
-- `twopence_iostream_read_all` of library/iostream.c.
use twopence.Prelude.{ℕ, zero, suc, true, false, Option, none, some, List, [], ◌∷◌, ◌++◌, length}
use twopence.Buffer.{Buf, new, append}
use twopence.Buffer.Contents.{contents}
use twopence.Iostream.Parts.{Substream, Target, buffer, file, with_room}
use twopence.Iostream.{Iostream, filesize, read}

-- What reading a substream brings up to its end, or up to an error.
abbrev pub pieces : List (Option (List ℕ)) → List ℕ
pieces [] = []
pieces (none ∷ rest) = []
pieces (some [] ∷ rest) = []
pieces (some (c ∷ cs) ∷ rest) = (c ∷ cs) ++ pieces rest

abbrev pub held : Target → List ℕ
held (buffer none resizable) = []
held (buffer (some bp) resizable) = contents bp
held (file f) = pieces f.incoming

abbrev pub pending : List Substream → List ℕ
pending [] = []
pending (sub ∷ rest) =
    (elim sub.has_ops as (λ b. List ℕ) [ true ↦ held sub.target | false ↦ [] ]) ++ pending rest

-- The buffer that is returned, NULL, or what ends the program: the NULL pointer in `filesize`. The last
-- is the end of the fuel.
pub data Outcome : Type 0 where
  whole : Buf → Outcome
  null fault out_of_fuel : Outcome

unfoldable pub take_in : (ℕ → List ℕ) → Buf → List ℕ → Buf
take_in fresh bp d = (append (with_room fresh bp (length d)) d (length d)).1

-- The loop, on fuel: each round but the last takes a byte at least.
unfoldable pub read_rounds : ℕ → (ℕ → List ℕ) → Iostream → Buf → Outcome × Iostream
read_rounds zero fresh stream bp = (out_of_fuel, stream)
read_rounds (suc f) fresh stream bp = elim (read stream 8192).0 [
  | none ↦ (null, (read stream 8192).1)
  | some d ↦ elim d [
    | [] ↦ (whole bp, (read stream 8192).1)
    | c ∷ cs ↦ read_rounds f fresh (read stream 8192).1 (take_in fresh bp (c ∷ cs))
  ]
]

abbrev pub size_or : Option ℕ → ℕ
size_or none = 0
size_or (some n) = n

unfoldable pub read_all : (ℕ → List ℕ) → Iostream → Outcome × Iostream
read_all fresh stream = elim (filesize stream) [
  | none ↦ (fault, stream)
  | some size ↦
      read_rounds (suc (length (pending stream.substreams))) fresh stream (new (size_or size))
]
