-- ===== src/Iostream/Tests.antt =====
-- Streams of library/iostream.c on concrete bytes, and the theorems applied.
use twopence.Prelude.{
  ℕ, ◌≡◌, refl, true, false, none, some, List, [], ◌∷◌, replicate, length-replicate, arith,
}
use twopence.Buffer.{Buf, init, count, advance_head}
use twopence.Buffer.Resize.{IsBlock}
use twopence.Iostream.Parts.{File, buffer, file, buffer_read, close_sub}
use twopence.Iostream.{Iostream, read, getc, getc_loop, filesize, write}
use twopence.Iostream.ReadAll.{read_all, fault}
use twopence.Iostream.Reading.{AllSources, Reads, read-Reads}
use twopence.Iostream.Writing.{AllSinks, AllWrite, write-AllWrite}
use twopence.Iostream.Whole.{Collected, read_all-Collected, read_all_again}

abbrev fresh : ℕ → List ℕ
fresh n = replicate n 0

fresh-IsBlock : IsBlock fresh
fresh-IsBlock n = length-replicate n (let z : ℕ = 0 in z)

-- "abc" in a buffer, and a descriptor that has "de" and then "f".
abbrev abc : Buf
abc = record init { base = b'a' ∷ b'b' ∷ b'c' ∷ []; tail = 3; size = 3 }

abbrev input : File
input = record {
  fd = some 5;
  closeit = true;
  incoming = some (b'd' ∷ b'e' ∷ []) ∷ some (b'f' ∷ []) ∷ [];
  answers = some 2 ∷ [];
  wire = [];
  regular_size = none;
  flags = some true;
  settable = true;
}

abbrev two : Iostream
two = record {
  eof = false;
  substreams =
      record { has_ops = true; target = buffer (some abc) true }
      ∷ record { has_ops = true; target = file input }
      ∷ [];
}

abbrev one : Iostream
one = record {
  eof = false;
  substreams = record { has_ops = true; target = buffer (some abc) false } ∷ [];
}

two-AllSources : AllSources two.substreams
two-AllSources = ((λ e. omega arith), ((λ e. (5, refl, tt)), tt))

one-AllSources : AllSources one.substreams
one-AllSources = ((λ e. omega arith), tt)

two-AllSinks : AllSinks 4 two.substreams
two-AllSinks = (refl, (record { valid = omega arith; full = refl }, omega arith), (refl, tt, tt))

filesize-two : filesize two ≡ some none
unfolding filesize
filesize-two = refl

filesize-one : filesize one ≡ some (some 3)
unfolding filesize count
filesize-one = refl

getc-one : ((getc one).0 ≡ some b'a') × ((getc (getc (getc (getc one).1).1).1).0 ≡ some 0)
unfolding getc getc_loop buffer_read count close_sub advance_head
getc-one = (refl, refl)

read-Reads_example : Reads two 2 (read two 2)
read-Reads_example = read-Reads two 2 refl two-AllSources (omega arith)

read_all-Collected_example :
    Collected (b'a' ∷ b'b' ∷ b'c' ∷ b'd' ∷ b'e' ∷ b'f' ∷ []) 2 (read_all fresh two)
read_all-Collected_example =
    read_all-Collected fresh two none fresh-IsBlock refl two-AllSources filesize-two (omega arith)
      (omega arith)

read_all_again_example :
    let stream' = (read_all fresh one).1 in read_all fresh stream' ≡ (fault, stream')
read_all_again_example =
    read_all_again fresh one (some 3) fresh-IsBlock refl one-AllSources filesize-one (omega arith)
      (omega arith) refl

write-AllWrite_example :
    (stream' : Iostream) × (write fresh two (b'w' ∷ b'x' ∷ b'y' ∷ b'z' ∷ [])
      ≡ some (some 4, stream'))
    × AllWrite (b'w' ∷ b'x' ∷ b'y' ∷ b'z' ∷ []) two.substreams stream'.substreams
    × (stream'.eof ≡ two.eof)
write-AllWrite_example =
    write-AllWrite fresh two (b'w' ∷ b'x' ∷ b'y' ∷ b'z' ∷ []) fresh-IsBlock two-AllSinks
      (omega arith)
