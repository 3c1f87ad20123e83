-- ===== src/Chat/Users/Db.antt =====
-- chat/server.c: `users.db`, `save_users` and `load_users`.
pub mod RoundTrip
pub mod Reload
use mathlib.Core.Option
use linux_network_lab.Base.{
  ℕ, zero, suc, Bool, true, false, not, List, [], ◌∷◌, ◌++◌, Option, none, some, length, take, set,
  ltb, if◌then◌else◌, ℤ, pos, ◌==s◌,
}
use linux_network_lab.Base.Decimal.{print_int, scan_int, is_space, skip_spaces}
use linux_network_lab.Chat.Files.{nul, line_feed, bar, read_lines, literal, scan_until, non_empty}
use linux_network_lab.Chat.Users.{
  max_users, username_size, User, truthy, user_at, find_user_index_by_name, add_user,
}

-- `%d|%s|%d|%d\n`
pub print_user : User → List ℕ
print_user u =
    print_int u.id
    ++ bar
      ∷ (u.username ++ bar ∷ (print_int u.active ++ bar ∷ (print_int u.is_admin ++ line_feed ∷ [])))

pub print_users : List User → List ℕ
print_users [] = []
print_users (u ∷ users) = print_user u ++ print_users users

-- What `fopen` and `rename` answer.
pub record SaveAnswers : Type 0 where
  pub opened : Bool
  pub renamed : Bool

-- The new text of the file if `save_users` succeeds; it stays as it was otherwise.
unfoldable pub save_users : SaveAnswers → List User → Option (List ℕ)
save_users io users =
    if io.opened then (if io.renamed then some (print_users users) else none) else none

-- The fields of `%d|%31[^|]|%d|%d`, one after the other.
infixl 5 ◌>>=◌
abbrev pub ◌>>=◌ : {A B : Type 0} → Option A → (A → Option B) → Option B
none >>= f = none
some a >>= f = f a

pub parse_user : List ℕ → Option User
parse_user line = do
  (id, r1) ← scan_int line
  r2 ← literal bar r1
  (name, r3) ← non_empty (scan_until bar 31 r2)
  r4 ← literal bar r3
  (active, r5) ← scan_int r4
  r6 ← literal bar r5
  (admin, r7) ← scan_int r6
  some (record { id = id; username = name; active = active; is_admin = admin })

-- `%31s`: a word of bytes that are no space.
pub scan_word : ℕ → List ℕ → List ℕ × List ℕ
scan_word zero cs = ([], cs)
scan_word (suc room) [] = ([], [])
scan_word (suc room) (c ∷ cs) =
    let more : List ℕ × List ℕ = (c ∷ (scan_word room cs).0, (scan_word room cs).1) in
    if is_space c then ([], c ∷ cs) else more

abbrev pub ahmet : List ℕ
ahmet = 97 ∷ 104 ∷ 109 ∷ 101 ∷ 116 ∷ []

-- The older format, `%d|%31s`: the user is active, and an admin if it is ahmet.
pub parse_old_user : List ℕ → Option User
parse_old_user line = do
  (id, r1) ← scan_int line
  r2 ← literal bar r1
  (name, r3) ← non_empty (scan_word 31 (skip_spaces r2))
  some (record {
    id = id;
    username = name;
    active = pos 1;
    is_admin = if name ==s ahmet then pos 1 else pos 0;
  })

pub parse_line : List ℕ → Option User
parse_line line = elim (parse_user line) [ some u ↦ some u | none ↦ parse_old_user line ]

abbrev pub with_parsed : List User → Option User → List User
with_parsed users none = users
with_parsed users (some u) = users ++ u ∷ []

-- The loop over the lines, until the table is full.
pub load_lines : List User → List (List ℕ) → List User
load_lines users [] = users
load_lines users (line ∷ lines) =
    let rest = load_lines (with_parsed users (parse_line line)) lines in
    if not (ltb (length users) max_users) then users else rest

-- There is always an active admin ahmet. A table that is full without it is an error.
unfoldable pub ensure_admin : List User → Option (List User)
ensure_admin users = elim (find_user_index_by_name users ahmet) [
  | none ↦ if not (ltb (length users) max_users) then none else some (add_user ahmet (pos 1) users)
  | some k ↦ some (set users k (record (user_at users k) { active = pos 1; is_admin = pos 1 }))
]

-- `load_users`, of a file that can be opened: the table, and the text that it saves at once.
unfoldable pub load_users : SaveAnswers → List ℕ → Option (List User × List ℕ)
load_users io bytes = do
  users ← ensure_admin (load_lines [] (read_lines 256 bytes))
  saved ← save_users io users
  some (users, saved)
