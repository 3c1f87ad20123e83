-- ===== src/Chat/Messages.antt =====
-- chat/server.c: `messages.db`, the last ten messages of a chat, and the list of conversations.
pub mod Clean
pub mod Stored
pub mod Between
pub mod Noted
pub mod Raised
pub mod Gathered
pub mod Reading
pub mod History
pub mod Contacts
use linux_network_lab.Base.{
  ℕ, zero, suc, Bool, true, false, not, ◌&&◌, ◌||◌, List, [], ◌∷◌, ◌++◌, Option, none, some, length,
  take, drop, set, get_or, ltb, ◌==◌, if◌then◌else◌, find_index, ℤ, pos, minus_one, ◌==ℤ◌, ltℤ,
}
use linux_network_lab.Base.Decimal.{print_int, scan_int, scan_long}
use linux_network_lab.Chat.Files.{line_feed, bar, read_lines, literal, scan_until, non_empty}
use linux_network_lab.Chat.Users.{max_users}
use linux_network_lab.Chat.Users.Db.{◌>>=◌}

pub record HistoryMessage : Type 0 where
  pub timestamp : ℤ
  pub sender_id : ℤ
  pub receiver_id : ℤ
  pub message : List ℕ

abbrev pub message_size : ℕ
message_size = 1024

abbrev pub carriage_return : ℕ
carriage_return = 13

abbrev pub slash : ℕ
slash = 47

-- The text ends at the first CR or LF, and each bar becomes a slash.
unfoldable pub sanitize_message : List ℕ → List ℕ
sanitize_message [] = []
sanitize_message (c ∷ cs) =
    let rest = (if c == bar then slash else c) ∷ sanitize_message cs in
    if c == carriage_return || c == line_feed then [] else rest

-- `%ld|%d|%d|%s\n`
unfoldable pub print_message : HistoryMessage → List ℕ
print_message m =
    print_int m.timestamp
    ++ bar
      ∷ (print_int m.sender_id
          ++ bar ∷ (print_int m.receiver_id ++ bar ∷ (m.message ++ line_feed ∷ [])))

-- The text of the file afterwards. What is stored is cut to 1023 bytes and cleaned.
unfoldable pub append_message : ℤ → ℤ → ℤ → List ℕ → List ℕ → List ℕ
append_message now sender receiver text db =
    db
    ++ print_message (record {
      timestamp = now;
      sender_id = sender;
      receiver_id = receiver;
      message = sanitize_message (take 1023 text);
    })

-- The first three fields of a line, and what follows them.
unfoldable pub parse_header : List ℕ → Option (ℤ × ℤ × ℤ × List ℕ)
parse_header line = do
  (timestamp, r1) ← scan_long line
  r2 ← literal bar r1
  (sender, r3) ← scan_int r2
  r4 ← literal bar r3
  (receiver, r5) ← scan_int r4
  some (timestamp, sender, receiver, r5)

-- `|%1023[^\n]`; without it the text is empty.
unfoldable pub parse_text : List ℕ → List ℕ
parse_text rest = elim (literal bar rest) [
  | none ↦ []
  | some text ↦ (scan_until line_feed 1023 text).0
]

unfoldable pub parse_message : List ℕ → Option HistoryMessage
parse_message line = do
  (timestamp, sender, receiver, rest) ← parse_header line
  some (record {
    timestamp = timestamp;
    sender_id = sender;
    receiver_id = receiver;
    message = parse_text rest;
  })

abbrev pub belongs_to_chat : ℤ → ℤ → HistoryMessage → Bool
belongs_to_chat my_id partner_id m =
    (m.sender_id ==ℤ my_id && m.receiver_id ==ℤ partner_id)
    || (m.sender_id ==ℤ partner_id && m.receiver_id ==ℤ my_id)

-- `history` holds ten messages at most; then the first makes way.
abbrev pub keep_message : List HistoryMessage → HistoryMessage → List HistoryMessage
keep_message history m =
    if ltb (length history) 10 then history ++ m ∷ [] else drop 1 history ++ m ∷ []

abbrev pub keep_parsed : ℤ → ℤ → List HistoryMessage → Option HistoryMessage → List HistoryMessage
keep_parsed my_id partner_id history none = history
keep_parsed my_id partner_id history (some m) =
    if belongs_to_chat my_id partner_id m then keep_message history m else history

unfoldable pub collect_history : ℤ → ℤ → List HistoryMessage → List (List ℕ) → List HistoryMessage
collect_history my_id partner_id history [] = history
collect_history my_id partner_id history (line ∷ lines) =
    collect_history my_id partner_id (keep_parsed my_id partner_id history (parse_message line))
      lines

unfoldable pub last_messages : ℤ → ℤ → List ℕ → List HistoryMessage
last_messages my_id partner_id db = collect_history my_id partner_id [] (read_lines 1400 db)

-- An entry of `menu_contact_ids` with its `last_time`.
pub record Contact : Type 0 where
  pub contact_id : ℤ
  pub last_time : ℤ

abbrev pub no_contact : Contact
no_contact = record { contact_id = pos 0; last_time = pos 0 }

-- `last_time` is raised to the time of the message.
abbrev pub raise_time : ℕ → ℤ → List Contact → List Contact
raise_time k t contacts =
    let c = get_or contacts k no_contact in
    if ltℤ c.last_time t then set contacts k (record c { last_time = t }) else contacts

unfoldable pub note_contact : ℤ → ℤ → List Contact → List Contact
note_contact other t contacts = elim (find_index (λ c. c.contact_id ==ℤ other) contacts) [
  | some k ↦ raise_time k t contacts
  | none ↦
      if not (ltb (length contacts) max_users)
      then contacts
      else raise_time (length contacts) t
          (contacts ++ record { contact_id = other; last_time = pos 0 } ∷ [])
]

-- -1 stands for nobody.
abbrev pub unless_nobody : Option ℤ → Option ℤ
unless_nobody none = none
unless_nobody (some id) = if id ==ℤ minus_one then none else some id

-- Whom a message was exchanged with.
abbrev pub other_id : ℤ → ℤ → ℤ → Option ℤ
other_id me sender receiver =
    unless_nobody
      (if sender ==ℤ me then some receiver else if receiver ==ℤ me then some sender else none)

unfoldable pub note_line : ℤ → List Contact → List ℕ → List Contact
note_line me contacts line = elim (parse_header line) [
  | none ↦ contacts
  | some (t, sender, receiver, rest) ↦ elim (other_id me sender receiver) [
    | none ↦ contacts
    | some other ↦ note_contact other t contacts
  ]
]

unfoldable pub note_lines : ℤ → List Contact → List (List ℕ) → List Contact
note_lines me contacts [] = contacts
note_lines me contacts (line ∷ lines) = note_lines me (note_line me contacts line) lines

-- The inner loop: what stands at `i` is exchanged with each later entry of a later time.
unfoldable pub exchange : Contact → List Contact → Contact × List Contact
exchange x [] = (x, [])
exchange x (y ∷ ys) =
    let later = ltℤ x.last_time y.last_time in
    let r = exchange (if later then y else x) ys in (r.0, (if later then x else y) ∷ r.1)

-- The outer loop, over the positions that are left.
unfoldable pub sort_contacts : ℕ → List Contact → List Contact
sort_contacts zero cs = cs
sort_contacts (suc left) [] = []
sort_contacts (suc left) (x ∷ xs) = (exchange x xs).0 ∷ sort_contacts left (exchange x xs).1

unfoldable pub conversations : ℤ → List ℕ → List Contact
conversations me db =
    let contacts = note_lines me [] (read_lines 1400 db) in sort_contacts (length contacts) contacts
