-- ===== src/Chat/Hall/Users.antt =====
-- chat/server.c: what the login does to the hall.
use linux_network_lab.Base.{
  ℕ, ◌<◌, ◌≡◌, sym, ap, ◌∙◌, true, inl, inr, List, none, some, length, ltb, pos, Bool-cases,
  Option-cases, ◌==s◌, find_index-Hit, arith,
}
use linux_network_lab.Chat.Users.{
  max_users, username_size, User, zero_user, truthy, user_at, find_user_index_by_name, add_user,
}
use linux_network_lab.Chat.State.{
  mode_login, mode_menu, account_removed, already_logged_in, database_full, user_not_saved, Chat,
  Answers, client_at, tell, find_client_by_user_id, save,
}
use linux_network_lab.Chat.Messages.{sanitize_message}
use linux_network_lab.Chat.Commands.{log_in, log_in_known, register, process_login, is_empty}
use linux_network_lab.Chat.Hall.{
  hall, seat_at, put, session, logs_in, registers, enters, Steps, still,
}
use linux_network_lab.Chat.Hall.Frame.{
  hall-show_conversation_list, hall-set_client, hall-disconnect_client, hall-save, mode-hall,
  seat_at-hall, find_index-map, arrive, step_to, then_steps,
}

pub hall-log_in :
    (io : Answers) (i k : ℕ) (s : Chat)
    → hall (log_in io i k s).1
      ≡ put i (session (user_at s.users k).id (seat_at (hall s) i)) (hall s)
unfolding log_in
hall-log_in io i k s =
    let u = user_at s.users k in
    hall-show_conversation_list io i _
    ∙ hall-set_client i
        (record (client_at s i) { user_id = u.id; logged_in = true; mode = mode_menu }) s
    ∙ ap (λ x. put i (session u.id x) (hall s)) (sym (seat_at-hall i s))

hall-log_in_known :
    (io : Answers) (i k : ℕ) (s : Chat)
    → (client_at s i).mode ≡ mode_login
    → k < length s.users
    → Steps (hall s) (hall (log_in_known io i k s).1)
unfolding log_in_known
hall-log_in_known io i k s m within = elim (Bool-cases (truthy (user_at s.users k).active)) [
  | inr removed_account ↦
      rw (removed_account, log_in_known) (hall-disconnect_client i (tell i account_removed s))
  | inl active ↦ elim (Option-cases (find_client_by_user_id s.clients (user_at s.users k).id)) [
    | inr (j, online) ↦
        rw (active, online, log_in_known) (hall-disconnect_client i (tell i already_logged_in s))
    | inl away ↦
        rw (active, away, log_in_known)
          (arrive
            (step_to (
              logs_in i k (mode-hall i mode_login s m) within active
                (find_index-map (user_at s.users k).id s.clients ∙ away)))
            (sym (hall-log_in io i k s)))
  ]
]

hall-register :
    (io : Answers) (i : ℕ) (name : List ℕ) (s : Chat)
    → (client_at s i).mode ≡ mode_login
    → find_user_index_by_name s.users name ≡ none
    → Steps (hall s) (hall (register io i name s).1)
unfolding register
hall-register io i name s m fresh = elim (Bool-cases (ltb (length s.users) max_users)) [
  | inr full ↦ rw (full, register) (hall-disconnect_client i (tell i database_full s))
  | inl room ↦
      let s' : Chat = record s { users = add_user name (pos 0) s.users } in
      let r = save io.saving s' in
      let l : length s.users < max_users = ground arith in
      elim (Bool-cases r.0) [
        | inr failed ↦
            rw (room, failed, register)
              (then_steps (arrive (step_to (registers name fresh l)) (sym (hall-save io s')))
                (hall-disconnect_client i (tell i user_not_saved r.1)))
        | inl saved ↦
            rw (room, saved, register)
              (arrive (step_to (enters i name (mode-hall i mode_login s m) fresh l)) (
                sym (
                  hall-log_in io i (length s.users) r.1
                  ∙ ap (λ h. put i (session (user_at h.users (length s.users)).id (seat_at h i)) h)
                      (hall-save io s'))))
      ]
]

within_table :
    (users : List User) (name : List ℕ) (k : ℕ)
    → find_user_index_by_name users name ≡ some k
    → k < length users
unfolding find_user_index_by_name
within_table users name k e = (find_index-Hit (λ u. u.username ==s name) users zero_user k e).within

pub hall-process_login :
    (io : Answers) (i : ℕ) (raw : List ℕ) (s : Chat)
    → (client_at s i).mode ≡ mode_login
    → Steps (hall s) (hall (process_login io i raw s).1)
unfolding process_login
hall-process_login io i raw s m =
    let line = sanitize_message raw in
    elim (Bool-cases (is_empty line)) [
      | inl empty ↦ rw (empty, process_login) still
      | inr text ↦ elim (Bool-cases (ltb (length line) username_size)) [
        | inr long ↦ rw (text, long, process_login) still
        | inl fits ↦ elim (Option-cases (find_user_index_by_name s.users line)) [
          | inl fresh ↦ rw (text, fits, fresh, process_login) (hall-register io i line s m fresh)
          | inr (k, there) ↦
              rw (text, fits, there, process_login)
                (hall-log_in_known io i k s m (within_table s.users line k there))
        ]
      ]
    ]
