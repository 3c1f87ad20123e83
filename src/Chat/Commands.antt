-- ===== src/Chat/Commands.antt =====
-- chat/server.c: `process_line` and the four functions that it calls. The result says whether the
-- loop over the lines of the client goes on.
use linux_network_lab.Base.{
  ℕ, zero, suc, Bool, true, false, not, ◌&&◌, List, [], ◌∷◌, Option, none, some, length, get_or,
  ltb, ◌==◌, if◌then◌else◌, ℤ, pos, negsuc, minus_one, ◌==ℤ◌, ◌==s◌,
}
use linux_network_lab.Base.Decimal.{skip_spaces, scan_number}
use linux_network_lab.Chat.Users.{
  max_users, username_size, User, truthy, user_at, find_user_index_by_id, find_user_index_by_name,
  add_user,
}
use linux_network_lab.Chat.State.{
  mode_menu, mode_chat, mode_admin, Client, Reply, Chat, Answers, client_at, set_client, tell,
  find_client_by_user_id, disconnect_client, save, username_empty, username_long, account_removed,
  already_logged_in, database_full, user_not_saved, goodbye, prompt, welcome, no_such_user,
  invalid_command, access_denied, partner_gone, not_saved, unavailable, stored, new_message,
  message,
}
use linux_network_lab.Chat.Messages.{sanitize_message, append_message}
use linux_network_lab.Chat.Pages.{
  is_admin_id, name_or_unknown, show_conversation_list, open_chat, show_admin_page,
}

abbrev pub go_on : Chat → Bool × Chat
go_on s = (true, s)

-- A last word, and the connection is closed.
abbrev pub refuse : ℕ → Reply → Chat → Bool × Chat
refuse i r s = (false, disconnect_client i (tell i r s))

-- The user at index `k` is logged in.
unfoldable pub log_in : Answers → ℕ → ℕ → Chat → Bool × Chat
log_in io i k s =
    let u = user_at s.users k in
    go_on (
      show_conversation_list io i (
        tell i (welcome u.username u.id (truthy u.is_admin)) (
          set_client i
            (record (client_at s i) { user_id = u.id; logged_in = true; mode = mode_menu }) s)))

-- A name that is not in the table gets an account. It stays in the table also where the table
-- cannot be saved.
unfoldable pub register : Answers → ℕ → List ℕ → Chat → Bool × Chat
register io i name s =
    if not (ltb (length s.users) max_users)
    then refuse i database_full s
    else (let r = save io.saving (record s { users = add_user name (pos 0) s.users }) in
        if r.0 then log_in io i (length s.users) r.1 else refuse i user_not_saved r.1)

unfoldable pub log_in_known : Answers → ℕ → ℕ → Chat → Bool × Chat
log_in_known io i k s =
    if not (truthy (user_at s.users k).active)
    then refuse i account_removed s
    else elim (find_client_by_user_id s.clients (user_at s.users k).id) [
      | none ↦ log_in io i k s
      | some j ↦ refuse i already_logged_in s
    ]

abbrev pub is_empty : List ℕ → Bool
is_empty [] = true
is_empty (c ∷ cs) = false

unfoldable pub process_login : Answers → ℕ → List ℕ → Chat → Bool × Chat
process_login io i raw s =
    let line = sanitize_message raw in
    if is_empty line
    then go_on (tell i username_empty s)
    else if not (ltb (length line) username_size)
    then go_on (tell i username_long s)
    else elim (find_user_index_by_name s.users line) [
      | some k ↦ log_in_known io i k s
      | none ↦ register io i line s
    ]

-- "q", "r", "a", and the "n " before a name.
abbrev pub key_q : List ℕ
key_q = 113 ∷ []

abbrev pub key_r : List ℕ
key_r = 114 ∷ []

abbrev pub key_a : List ℕ
key_a = 97 ∷ []

abbrev pub name_after_n : List ℕ → Option (List ℕ)
name_after_n (c ∷ d ∷ name) = if c == 110 && d == 32 then some name else none
name_after_n _ = none

-- `strtol` over the whole line.
abbrev pub whole_number : List ℕ → Option ℤ
whole_number line = elim (scan_number (skip_spaces line)) [
  | some (z, []) ↦ some z
  | some (z, c ∷ cs) ↦ none
  | none ↦ none
]

-- The entry with that number, counted from 1.
abbrev pub entry_number : ℕ → ℤ → Option ℕ
entry_number count (pos zero) = none
entry_number count (pos (suc n)) = if ltb n count then some n else none
entry_number count (negsuc n) = none

abbrev pub chosen_contact : List ℤ → List ℕ → Option ℤ
chosen_contact ids line = elim (whole_number line) [
  | none ↦ none
  | some z ↦ elim (entry_number (length ids) z) [
    | none ↦ none
    | some n ↦ some (get_or ids n (pos 0))
  ]
]

unfoldable pub enter_admin : ℕ → Chat → Chat
enter_admin i s =
    if is_admin_id s.users (client_at s i).user_id
    then show_admin_page i (set_client i (record (client_at s i) { mode = mode_admin }) s)
    else tell i access_denied s

unfoldable pub new_chat : Answers → ℕ → List ℕ → Chat → Chat
new_chat io i name s = elim (find_user_index_by_name s.users name) [
  | none ↦ tell i no_such_user s
  | some k ↦ open_chat io i (user_at s.users k).id s
]

unfoldable pub choose_contact : Answers → ℕ → List ℕ → Chat → Chat
choose_contact io i line s = elim (chosen_contact (client_at s i).menu_contact_ids line) [
  | none ↦ tell i invalid_command s
  | some partner ↦ open_chat io i partner s
]

unfoldable pub process_menu : Answers → ℕ → List ℕ → Chat → Bool × Chat
process_menu io i line s =
    if line ==s key_q
    then refuse i goodbye s
    else if line ==s key_r
    then go_on (show_conversation_list io i s)
    else if line ==s key_a
    then go_on (enter_admin i s)
    else elim (name_after_n line) [
      | some name ↦ go_on (new_chat io i name s)
      | none ↦ go_on (choose_contact io i line s)
    ]

-- The recipient sees the message if it has this chat open, and else a notification.
unfoldable pub deliver : ℕ → ℕ → List ℕ → Chat → Chat
deliver i j line s =
    let me = (client_at s i).user_id in
    let name = name_or_unknown s.users me in
    let reads : Bool = elim (client_at s j).mode [
      | mode_chat ↦ (client_at s j).chat_partner_id ==ℤ me
      | _ ↦ false
    ] in
    tell i prompt (tell j (if reads then message name line else new_message name) s)

unfoldable pub send_message : Answers → ℕ → User → List ℕ → Chat → Chat
send_message io i partner line s =
    if not io.append_opened
    then tell i not_saved s
    else (let s' = record s {
      messages_db =
          append_message io.now.value (client_at s i).user_id partner.id line s.messages_db;
    } in
        elim (find_client_by_user_id s'.clients partner.id) [
          | none ↦ tell i (stored partner.username) s'
          | some j ↦ deliver i j line s'
        ])

unfoldable pub leave_page : Answers → ℕ → Client → Chat → Chat
leave_page io i c s = show_conversation_list io i (set_client i c s)

unfoldable pub process_chat : Answers → ℕ → List ℕ → Chat → Bool × Chat
process_chat io i line s =
    let c = client_at s i in
    if line ==s key_q
    then go_on (leave_page io i (record c { mode = mode_menu; chat_partner_id = minus_one }) s)
    else if is_empty line
    then go_on (tell i prompt s)
    else elim (find_user_index_by_id s.users c.chat_partner_id) [
      | none ↦ go_on (tell i partner_gone s)
      | some k ↦
          if not (truthy (user_at s.users k).active)
          then go_on (tell i (unavailable (user_at s.users k).username) s)
          else go_on (send_message io i (user_at s.users k) line s)
    ]
