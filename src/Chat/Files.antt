-- ===== src/Chat/Files.antt =====
-- chat/server.c: the text files `users.db` and `messages.db`, read line by line with `fgets` and
-- taken apart with `sscanf`.
pub mod Lines
use mathlib.Core.Option
use linux_network_lab.Base.{
  ℕ, zero, suc, ◌-◌, Bool, true, false, ◌||◌, List, [], ◌∷◌, ◌++◌, Option, none, some, map, leb,
  ◌==◌, if◌then◌else◌,
}

abbrev pub nul : ℕ
nul = 0

abbrev pub line_feed : ℕ
line_feed = 10

abbrev pub bar : ℕ
bar = 124

-- The bytes of an array as a string: those before the first NUL.
unfoldable pub c_string : List ℕ → List ℕ
c_string [] = []
c_string (c ∷ cs) = let rest = c ∷ c_string cs in if c == nul then [] else rest

-- At the end of the file a line that has begun is returned.
abbrev pub last_line : List ℕ → List (List ℕ)
last_line [] = []
last_line (a ∷ line) = (a ∷ line) ∷ []

-- What successive calls of `fgets` return, the bytes of the present line and the room for more
-- given. A line ends behind its line feed, or where the buffer is full.
unfoldable pub lines_from : ℕ → ℕ → List ℕ → List ℕ → List (List ℕ)
lines_from size room line [] = last_line line
lines_from size room line (b ∷ bytes) = elim (b == line_feed || leb room 1) [
  | true ↦ (line ++ b ∷ []) ∷ lines_from size size [] bytes
  | false ↦ lines_from size (room - 1) (line ++ b ∷ []) bytes
]

-- `fgets(line, size, file)` until it returns NULL.
unfoldable pub read_lines : ℕ → List ℕ → List (List ℕ)
read_lines size bytes = map c_string (lines_from (size - 1) (size - 1) [] bytes)

-- An ordinary character of a format.
unfoldable pub literal : ℕ → List ℕ → Option (List ℕ)
literal c [] = none
literal c (x ∷ xs) = if x == c then some xs else none

-- The bytes before `stop`, at most `room` of them, and what follows.
unfoldable pub scan_until : ℕ → ℕ → List ℕ → List ℕ × List ℕ
scan_until stop zero cs = ([], cs)
scan_until stop (suc room) [] = ([], [])
scan_until stop (suc room) (c ∷ cs) =
    let more : List ℕ × List ℕ = (c ∷ (scan_until stop room cs).0, (scan_until stop room cs).1) in
    if c == stop then ([], c ∷ cs) else more

-- `%31[^|]` and its like take one byte at least.
unfoldable pub non_empty : List ℕ × List ℕ → Option (List ℕ × List ℕ)
non_empty ([], rest) = none
non_empty (c ∷ cs, rest) = some (c ∷ cs, rest)
