-- ===== src/Target.antt =====
-- The chat functions of library/twopence.c. What the plugin's `chat_recv` returns is given as a list of
-- its results, each with the receive buffer after the call, which the sinks of the command fill.
pub mod Pick
pub mod Line
mod Tests
use twopence.Prelude.{
  ℕ, zero, suc, ◌+◌, ◌-◌, Bool, true, false, not, ◌&&◌, ◌||◌, Option, none, some, List, [], ◌∷◌,
  length, take, ltb, ◌==◌, if◌then◌else◌,
}
use twopence.Buffer
use twopence.Buffer.{Buf, init, count, head_mem, append, pull}
use twopence.Buffer.Search.{index}
use twopence.Iostream.{Iostream, destroy, add_substream}
use twopence.Iostream.Parts.{new_buffer, with_room}
use twopence.Pipe.{Rc, ok, failed}

-- `struct twopence_chat`
pub record Chat : Type 0 where
  pub pid : ℕ
  pub recvbuf : Buf
  pub sendbuf : Buf
  pub stdin : Iostream
  pub consumed : Buf
  pub found : Option (List ℕ)

-- The loop of `twopence_chat_expect` over the strings: the string whose first occurrence is the earliest,
-- and of several there the longest.
abbrev pub Match : Type 0
Match = Option (ℕ × List ℕ)

abbrev pub candidate : List ℕ → Option ℕ → Match
candidate s none = none
candidate s (some at) = some (at, s)

abbrev pub better : Match → Match → Match
better none best = best
better (some (at, s)) none = some (at, s)
better (some (at, s)) (some (pos, string)) =
    if ltb at pos || at == pos && ltb (length string) (length s)
    then some (at, s)
    else some (pos, string)

unfoldable pub pick : Buf → List (List ℕ) → Match → Match
pick bp [] best = best
pick bp (s ∷ strings) best = pick bp strings (better (candidate s (index bp (some s))) best)

-- `twopence_chat_expect`. Where the list of results has ended, it still waits.
pub data Expected : Type 0 where
  waits : Chat → Expected
  returns : Rc → Chat → Expected

abbrev pub Received : Type 0
Received = List (Rc × Buf)

abbrev pub consume : (ℕ → List ℕ) → Chat → ℕ → List ℕ → Expected
consume fresh chat pos string =
    let nbytes = pos + length string in
    let room = with_room fresh chat.consumed nbytes in
    returns (ok nbytes) (record chat {
      found = some string;
      consumed = (append room (head_mem chat.recvbuf) nbytes).1;
      recvbuf = (pull chat.recvbuf nbytes).1;
    })

unfoldable pub expect_loop : (ℕ → List ℕ) → List (List ℕ) → Received → Chat → Expected
expect_loop fresh strings [] chat = elim (pick chat.recvbuf strings none) [
  | some (pos, string) ↦ consume fresh chat pos string
  | none ↦ waits chat
]
expect_loop fresh strings ((rc, bp) ∷ rest) chat = elim (pick chat.recvbuf strings none) [
  | some (pos, string) ↦ consume fresh chat pos string
  | none ↦ elim rc [
    | failed e ↦ returns (failed e) (record chat { recvbuf = bp })
    | ok n ↦ elim n [
      | zero ↦ returns (ok 0) (record chat { recvbuf = bp })
      | suc k ↦ expect_loop fresh strings rest (record chat { recvbuf = bp })
    ]
  ]
]

unfoldable pub chat_expect : (ℕ → List ℕ) → List (List ℕ) → Received → Chat → Expected
chat_expect fresh strings received chat =
    expect_loop fresh strings received
      (record chat { consumed = Buffer.destroy chat.consumed; found = none })

-- `twopence_chat_puts`, up to the call of the plugin's `chat_send`.
unfoldable pub chat_puts : (ℕ → List ℕ) → Chat → List ℕ → Chat
chat_puts fresh chat string =
    let room = with_room fresh chat.sendbuf (length string) in
    let sendbuf = (append room string (length string)).1 in
    record chat {
      sendbuf = sendbuf;
      stdin = add_substream (destroy chat.stdin).1 (new_buffer (some sendbuf) false);
    }

-- The loop of `twopence_chat_gets` that copies a line: the line, and the number of bytes taken. CR LF is
-- LF, and a line ends with LF or NUL.
abbrev pub starts_line : List ℕ → Bool
starts_line [] = false
starts_line (c ∷ cs) = c == 10

unfoldable pub copy_line : List ℕ → List ℕ × ℕ
copy_line [] = ([], 0)
copy_line (c ∷ cs) =
    let (line, n) = copy_line cs in
    if c == 13 && starts_line cs
    then ([], 2)
    else if c == 0 || c == 10
    then ([], 1)
    else (c ∷ line, n + 1)

-- `twopence_chat_gets`: none is NULL.
pub data Got : Type 0 where
  waits : Buf → Got
  gives : Option (List ℕ) → Buf → Got

abbrev pub taken_line : ℕ → Buf → Got
taken_line size bp =
    let n = if ltb (size - 1) (count bp) then size - 1 else count bp in
    let (line, k) = copy_line (take n (head_mem bp)) in gives (some line) (pull bp k).1

abbrev pub has_line : Buf → Bool
has_line bp = elim (index bp (some (10 ∷ []))) [ none ↦ false | some pos ↦ true ]

unfoldable pub gets_loop : ℕ → Received → Buf → Got
gets_loop size [] bp = if has_line bp then taken_line size bp else waits bp
gets_loop size ((rc, bp') ∷ rest) bp = elim (has_line bp) [
  | true ↦ taken_line size bp
  | false ↦ elim rc [
    | failed e ↦ gives none bp'
    | ok n ↦ elim n [ zero ↦ taken_line size bp' | suc k ↦ gets_loop size rest bp' ]
  ]
]

unfoldable pub chat_gets : ℕ → Received → Buf → Got
chat_gets size received bp =
    if size == 0
    then gives none bp
    else if ltb (size - 1) (count bp)
    then taken_line size bp
    else gets_loop size received bp
