-- ===== src/Buffer/Window.antt =====
-- What a buffer promises to its clients: a queue of bytes that grows at both ends, as far as the room
-- before and behind it goes. No memory, no indices, no word size.
use twopence.Prelude.{
  ℕ, ◌+◌, ◌-◌, Bool, true, false, List, [], ◌∷◌, ◌++◌, length, take, drop, ltb, leb, if◌then◌else◌,
}

pub record Window : Type 0 where
  pub front : ℕ
  pub bytes : List ℕ
  pub back : ℕ

pub data Op : Type 0 where
  appends pushes : List ℕ → Op
  gets pulls truncates : ℕ → Op
  compacts : Op

-- What a call returns: whether it succeeded, and the bytes that it hands out.
abbrev pub Reply : Type 0
Reply = Bool × List ℕ

unfoldable pub append : Window → List ℕ → Reply × Window
append w d =
    if leb (length d) w.back
    then ((true, []), record w { bytes = w.bytes ++ d; back = w.back - length d })
    else ((false, []), w)

unfoldable pub push : Window → List ℕ → Reply × Window
push w d =
    if leb (length d) w.front
    then ((true, []), record w { front = w.front - length d; bytes = d ++ w.bytes })
    else ((false, []), w)

unfoldable pub get : Window → ℕ → Reply × Window
get w n =
    if leb n (length w.bytes)
    then ((true, take n w.bytes), record w { front = w.front + n; bytes = drop n w.bytes })
    else ((false, []), w)

unfoldable pub truncate : Window → ℕ → Window
truncate w n =
    if ltb n (length w.bytes)
    then record w { bytes = take n w.bytes; back = w.back + (length w.bytes - n) }
    else w

unfoldable pub compact : Window → Window
compact w = record w { front = 0; back = w.back + w.front }

unfoldable pub step : Window → Op → Reply × Window
unfolding append push get truncate compact
step w (appends d) = append w d
step w (pushes d) = push w d
step w (gets n) = get w n
step w (pulls n) = get w n
step w (truncates n) = ((true, []), truncate w n)
step w compacts = ((true, []), compact w)

unfoldable pub run : Window → List Op → List Reply
unfolding step
run w [] = []
run w (op ∷ ops) = let (r, w') = step w op in r ∷ run w' ops
