-- ===== src/Target/Tests.antt =====
-- A chat of library/twopence.c on concrete bytes, and the theorems applied.
use twopence.Prelude.{ℕ, ◌≡◌, refl, none, some, List, [], ◌∷◌, arith}
use twopence.Buffer.{Buf, init, count}
use twopence.Buffer.Bounds.{IsReadable}
use twopence.Buffer.Contents.{contents}
use twopence.Buffer.Search.{index, search_from, skip, bytes_eq}
use twopence.Target.{gives, chat_gets, pick}
use twopence.Target.Line.{chat_gets-whole}
use twopence.Target.Pick.{IsBest, pick-IsBest}

-- "ok" and LF, and then "> ".
abbrev output : Buf
output = record init { base = b'o' ∷ b'k' ∷ 10 ∷ b'>' ∷ b' ' ∷ []; tail = 5; size = 5 }

output-IsReadable : IsReadable output
output-IsReadable = omega arith

-- Of two strings at the same place, the longer one.
abbrev prompts : List (List ℕ)
prompts = (b'>' ∷ []) ∷ (b'>' ∷ b' ' ∷ []) ∷ (b'?' ∷ []) ∷ []

pick-prompts : pick output prompts none ≡ some (3, b'>' ∷ b' ' ∷ [])
unfolding pick index count search_from skip bytes_eq
pick-prompts = refl

pick-IsBest_example : IsBest output prompts (pick output prompts none)
pick-IsBest_example = pick-IsBest output prompts

chat_gets-whole_example :
    (bp' : Buf) × (chat_gets 80 [] output ≡ gives (some (b'o' ∷ b'k' ∷ [])) bp')
    × (contents bp' ≡ b'>' ∷ b' ' ∷ [])
chat_gets-whole_example =
    chat_gets-whole 80 [] (b'o' ∷ b'k' ∷ []) (b'>' ∷ b' ' ∷ []) output-IsReadable (omega arith) refl
      (omega arith)
