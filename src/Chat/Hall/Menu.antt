-- ===== src/Chat/Hall/Menu.antt =====
-- chat/server.c: what the menu and the chat do to the hall.
use linux_network_lab.Base.{
  true, some, Lacks, ◌==ℤ◌, ◌<◌, length, subst, find_index-Hit, ℕ, ◌≡◌, refl, sym, ap, ◌∙◌, inl,
  inr, List, ℤ, Bool-cases, Option-cases, ◌==ℤ◌, ◌==s◌, minus_one,
}
use linux_network_lab.Chat.Users.{
  zero_user, User, truthy, user_at, find_user_index_by_id, find_user_index_by_name,
}
use linux_network_lab.Chat.State.{
  Mode, mode_menu, mode_chat, mode_admin, Client, goodbye, Chat, Answers, client_at, set_client,
  tell, find_client_by_user_id,
}
use linux_network_lab.Chat.Files.{nul}
use linux_network_lab.Chat.Messages.{append_message}
use linux_network_lab.Chat.Pages.{is_admin_id, open_chat}
use linux_network_lab.Chat.Commands.{
  leave_page, enter_admin, new_chat, choose_contact, chosen_contact, name_after_n, process_menu,
  send_message, deliver, process_chat, key_q, key_r, key_a, is_empty,
}
use linux_network_lab.Chat.Hall.{
  sends, seat_of, hall, seat_at, put, reads, rules, returns_from_chat, Steps, still,
}
use linux_network_lab.Chat.Hall.Frame.{
  hall-tell_all, hall-show_conversation_list, hall-show_last_messages, hall-show_admin_page,
  hall-disconnect_client, hall-turn, mode-hall, seat_at-hall, arrive, step_to,
}

pub hall-leave_page :
    (io : Answers) (i : ℕ) (m : Mode) (c : Client) (s : Chat)
    → seat_of c ≡ record (seat_of (client_at s i)) { mode = m }
    → hall (leave_page io i c s) ≡ put i (record (seat_at (hall s) i) { mode = m }) (hall s)
unfolding leave_page
hall-leave_page io i m c s e =
    hall-show_conversation_list io i (set_client i c s) ∙ hall-turn i m c s e

hall-open_chat :
    (io : Answers) (i : ℕ) (partner : ℤ) (s : Chat)
    → (client_at s i).mode ≡ mode_menu
    → Steps (hall s) (hall (open_chat io i partner s))
unfolding open_chat
hall-open_chat io i partner s m = elim (Option-cases (find_user_index_by_id s.users partner)) [
  | inl missing ↦ rw (missing, open_chat) still
  | inr (k, there) ↦ elim (Bool-cases (partner ==ℤ (client_at s i).user_id)) [
    | inl own ↦ rw (there, own, open_chat) still
    | inr other ↦
        rw (there, other, open_chat)
          (arrive (step_to (reads i (mode-hall i mode_menu s m))) (
            sym (
              hall-show_last_messages io i partner _
              ∙ hall-tell_all i _ _
              ∙ hall-turn i mode_chat
                  (record (client_at s i) { mode = mode_chat; chat_partner_id = partner }) s refl)))
  ]
]

hall-enter_admin :
    (i : ℕ) (s : Chat) → (client_at s i).mode ≡ mode_menu → Steps (hall s) (hall (enter_admin i s))
unfolding enter_admin
hall-enter_admin i s m = elim (Bool-cases (is_admin_id s.users (client_at s i).user_id)) [
  | inr refused ↦ rw (refused, enter_admin) still
  | inl admin ↦
      rw (admin, enter_admin)
        (arrive
          (step_to (
            rules i (mode-hall i mode_menu s m)
              (ap (λ x. is_admin_id s.users x.user_id) (seat_at-hall i s) ∙ admin)))
          (sym (
            hall-show_admin_page i _
            ∙ hall-turn i mode_admin (record (client_at s i) { mode = mode_admin }) s refl)))
]

hall-new_chat :
    (io : Answers) (i : ℕ) (name : List ℕ) (s : Chat)
    → (client_at s i).mode ≡ mode_menu
    → Steps (hall s) (hall (new_chat io i name s))
unfolding new_chat
hall-new_chat io i name s m = elim (Option-cases (find_user_index_by_name s.users name)) [
  | inl missing ↦ rw (missing, new_chat) still
  | inr (k, there) ↦ rw (there, new_chat) (hall-open_chat io i (user_at s.users k).id s m)
]

hall-choose_contact :
    (io : Answers) (i : ℕ) (line : List ℕ) (s : Chat)
    → (client_at s i).mode ≡ mode_menu
    → Steps (hall s) (hall (choose_contact io i line s))
unfolding choose_contact
hall-choose_contact io i line s m =
    elim (Option-cases (chosen_contact (client_at s i).menu_contact_ids line)) [
      | inl missing ↦ rw (missing, choose_contact) still
      | inr (partner, there) ↦ rw (there, choose_contact) (hall-open_chat io i partner s m)
    ]

pub hall-process_menu :
    (io : Answers) (i : ℕ) (line : List ℕ) (s : Chat)
    → (client_at s i).mode ≡ mode_menu
    → Steps (hall s) (hall (process_menu io i line s).1)
unfolding process_menu
hall-process_menu io i line s m = elim (Bool-cases (line ==s key_q)) [
  | inl q ↦ rw (q, process_menu) (hall-disconnect_client i (tell i goodbye s))
  | inr not_q ↦ elim (Bool-cases (line ==s key_r)) [
    | inl r ↦ rw (not_q, r, process_menu) (arrive still (sym (hall-show_conversation_list io i s)))
    | inr not_r ↦ elim (Bool-cases (line ==s key_a)) [
      | inl a ↦ rw (not_q, not_r, a, process_menu) (hall-enter_admin i s m)
      | inr not_a ↦ elim (Option-cases (name_after_n line)) [
        | inl other ↦
            rw (not_q, not_r, not_a, other, process_menu) (hall-choose_contact io i line s m)
        | inr (name, n) ↦ rw (not_q, not_r, not_a, n, process_menu) (hall-new_chat io i name s m)
      ]
    ]
  ]
]

hall-send_message :
    (io : Answers) (i k : ℕ) (line : List ℕ) (s : Chat)
    → (client_at s i).mode ≡ mode_chat
    → k < length s.users
    → truthy (user_at s.users k).active ≡ true
    → Lacks nul line
    → Steps (hall s) (hall (send_message io i (user_at s.users k) line s))
unfolding send_message deliver
hall-send_message io i k line s m within active clean =
    let partner = user_at s.users k in
    let sent : Steps (hall s) (
        hall (record s {
          messages_db =
              append_message io.now.value (client_at s i).user_id partner.id line s.messages_db;
        })) =
      subst
        (λ x. Steps (hall s) (record (hall s) {
          messages_db = append_message io.now.value x.user_id partner.id line s.messages_db;
        }))
        (seat_at-hall i s)
        (step_to (sends i k io.now line (mode-hall i mode_chat s m) within active clean)) in
    elim (Bool-cases io.append_opened) [
      | inr failed ↦ rw (failed, send_message) still
      | inl opened ↦ elim (Option-cases (find_client_by_user_id s.clients partner.id)) [
        | inl away ↦ rw (opened, away, send_message) sent
        | inr (j, online) ↦ rw (opened, online, send_message) sent
      ]
    ]

found_within :
    (users : List User) (id : ℤ) (k : ℕ)
    → find_user_index_by_id users id ≡ some k
    → k < length users
unfolding find_user_index_by_id
found_within users id k e = (find_index-Hit (λ u. u.id ==ℤ id) users zero_user k e).within

pub hall-process_chat :
    (io : Answers) (i : ℕ) (line : List ℕ) (s : Chat)
    → (client_at s i).mode ≡ mode_chat
    → Lacks nul line
    → Steps (hall s) (hall (process_chat io i line s).1)
unfolding process_chat
hall-process_chat io i line s m clean = elim (Bool-cases (line ==s key_q)) [
  | inl q ↦
      rw (q, process_chat)
        (arrive (step_to (returns_from_chat i (mode-hall i mode_chat s m))) (
          sym (
            hall-leave_page io i mode_menu
              (record (client_at s i) { mode = mode_menu; chat_partner_id = minus_one }) s refl)))
  | inr not_q ↦ elim (Bool-cases (is_empty line)) [
    | inl empty ↦ rw (not_q, empty, process_chat) still
    | inr text ↦
        elim (Option-cases (find_user_index_by_id s.users (client_at s i).chat_partner_id)) [
          | inl missing ↦ rw (not_q, text, missing, process_chat) still
          | inr (k, there) ↦ elim (Bool-cases (truthy (user_at s.users k).active)) [
            | inr removed ↦ rw (not_q, text, there, removed, process_chat) still
            | inl here ↦
                rw (not_q, text, there, here, process_chat)
                  (hall-send_message io i k line s m
                    (found_within s.users (client_at s i).chat_partner_id k there) here clean)
          ]
        ]
  ]
]
