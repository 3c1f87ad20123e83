-- ===== src/Chat/Admin.antt =====
-- chat/server.c: `process_admin`, and `process_line`, which chooses by the mode of the client.
use linux_network_lab.Base.{
  ℕ, Bool, not, List, [], ◌∷◌, Option, none, some, length, set, ◌==◌, if◌then◌else◌, ℤ, pos, ◌==s◌,
}
use linux_network_lab.Base.Decimal.{scan_int}
use linux_network_lab.Chat.Files.{c_string}
use linux_network_lab.Chat.Users.{truthy, user_at}
use linux_network_lab.Chat.State.{
  mode_login, mode_menu, mode_chat, mode_admin, Chat, Answers, client_at, tell,
  find_client_by_user_id, disconnect_client, save, invalid_admin_command, invalid_user_number,
  admin_stays, already_removed, removed_by_admin, already_active, unknown_admin_command, removed,
  restored,
}
use linux_network_lab.Chat.Messages.{sanitize_message}
use linux_network_lab.Chat.Pages.{show_admin_page}
use linux_network_lab.Chat.Commands.{
  go_on, key_q, entry_number, leave_page, process_login, process_menu, process_chat,
}

-- `users[k].active` is set, and the table is saved; nobody looks at whether that succeeds.
unfoldable pub set_active : Answers → ℕ → ℤ → Chat → Chat
set_active io k active s =
    (save io.saving
      (record s { users = set s.users k (record (user_at s.users k) { active = active }) })).1

-- The client of a user that is removed, if there is one.
unfoldable pub put_out : Option ℕ → Chat → Chat
put_out none s = s
put_out (some j) s = disconnect_client j (tell j removed_by_admin s)

unfoldable pub remove_user : Answers → ℕ → ℕ → Chat → Chat
remove_user io i k s =
    if truthy (user_at s.users k).is_admin
    then tell i admin_stays s
    else if not (truthy (user_at s.users k).active)
    then tell i already_removed s
    else (let s' = set_active io k (pos 0) s in
        show_admin_page i (
          tell i (removed (user_at s.users k).username)
            (put_out (find_client_by_user_id s'.clients (user_at s.users k).id) s')))

unfoldable pub restore_user : Answers → ℕ → ℕ → Chat → Chat
restore_user io i k s =
    if truthy (user_at s.users k).active
    then tell i already_active s
    else show_admin_page i
        (tell i (restored (user_at s.users k).username) (set_active io k (pos 1) s))

-- `%c %d`
unfoldable pub admin_command : List ℕ → Option (ℕ × ℤ)
admin_command [] = none
admin_command (command ∷ rest) = elim (scan_int rest) [
  | none ↦ none
  | some (selection, after) ↦ some (command, selection)
]

-- "d" and "r"
unfoldable pub apply_command : Answers → ℕ → ℕ → ℕ → Chat → Chat
apply_command io i command k s =
    if command == 100
    then remove_user io i k s
    else if command == 114
    then restore_user io i k s
    else tell i unknown_admin_command s

unfoldable pub select_user : Answers → ℕ → ℕ → Option ℕ → Chat → Chat
select_user io i command none s = tell i invalid_user_number s
select_user io i command (some k) s = apply_command io i command k s

unfoldable pub obey : Answers → ℕ → Option (ℕ × ℤ) → Chat → Chat
obey io i none s = tell i invalid_admin_command s
obey io i (some (command, selection)) s =
    select_user io i command (entry_number (length s.users) selection) s

unfoldable pub process_admin : Answers → ℕ → List ℕ → Chat → Bool × Chat
process_admin io i line s = go_on (
    if line ==s key_q
    then leave_page io i (record (client_at s i) { mode = mode_menu }) s
    else obey io i (admin_command line) s)

-- The line is cleaned first, as a string that ends at a NUL.
unfoldable pub process_line : Answers → ℕ → List ℕ → Chat → Bool × Chat
process_line io i raw s =
    let line = sanitize_message (c_string raw) in
    elim (client_at s i).mode [
      | mode_login ↦ process_login io i line s
      | mode_menu ↦ process_menu io i line s
      | mode_chat ↦ process_chat io i line s
      | mode_admin ↦ process_admin io i line s
    ]
