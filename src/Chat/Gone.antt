-- ===== src/Chat/Gone.antt =====
-- chat/server.c: `process_line` ends the loop over the lines only for a client that is gone.
use mathlib.Core.Bool.{false≢true}
use linux_network_lab.Base.{
  ℕ, zero, suc, ◌+◌, ◌<◌, ◌≡◌, refl, sym, ap, Bool, true, false, inl, inr, List, [], ◌∷◌, ◌++◌,
  none, length, set, get_or, ltb, pos, Bool-cases, Option-cases, ◌==s◌, arith,
}
use linux_network_lab.Chat.Files.{c_string}
use linux_network_lab.Chat.Input.{newline, memchr, Conn, receive, input_buffer_size}
use linux_network_lab.Chat.Input.Stream.{receive-append}
use linux_network_lab.Chat.Input.Drained.{receive-none_left}
use linux_network_lab.Chat.Users.{
  max_users, username_size, truthy, user_at, find_user_index_by_id, find_user_index_by_name,
  add_user,
}
use linux_network_lab.Chat.State.{
  max_clients, Mode, mode_login, mode_menu, mode_chat, mode_admin, Client, free_client, Reply, Chat,
  Answers, client_at, tell, find_client_by_user_id, disconnect_client, save,
}
use linux_network_lab.Chat.Messages.{sanitize_message}
use linux_network_lab.Chat.Commands.{
  refuse, log_in, log_in_known, register, process_login, process_menu, process_chat, is_empty,
  key_q, key_r, key_a, name_after_n,
}
use linux_network_lab.Chat.Admin.{process_admin, process_line}
use linux_network_lab.Chat.Events.{Running, next_line, server_of}

get_or-set_free :
    (cs : List Client) (i : ℕ) → get_or (set cs i free_client) i free_client ≡ free_client
get_or-set_free [] i = refl
get_or-set_free (c ∷ cs) zero = refl
get_or-set_free (c ∷ cs) (suc i) = get_or-set_free cs i

module _ (i : ℕ) (inside : i < max_clients) where
  disconnect_client_gone : (s : Chat) → (client_at (disconnect_client i s) i).active ≡ false
  unfolding disconnect_client
  disconnect_client_gone s =
      let here : ltb i max_clients ≡ true = ground (arith, inside) in
      elim (Bool-cases (client_at s i).active) [
        | inr gone ↦ rw (here, gone, disconnect_client) gone
        | inl on ↦
            rw (here, on, disconnect_client) (ap (λ c. c.active) (get_or-set_free s.clients i))
      ]

  abbrev Stops : Bool × Chat → Type 0
  Stops p = p.0 ≡ false → (client_at p.1 i).active ≡ false

  -- The loop goes on.
  goes_on : {P : Type 0} → true ≡ false → P
  goes_on e = absurd (false≢true (sym e))

  Stops-refuse : (r : Reply) (s : Chat) → Stops (refuse i r s)
  Stops-refuse r s e = disconnect_client_gone (tell i r s)

  Stops-log_in : (io : Answers) (k : ℕ) (s : Chat) → Stops (log_in io i k s)
  unfolding log_in
  Stops-log_in io k s = goes_on

  Stops-log_in_known : (io : Answers) (k : ℕ) (s : Chat) → Stops (log_in_known io i k s)
  unfolding log_in_known
  Stops-log_in_known io k s = elim (Bool-cases (truthy (user_at s.users k).active)) [
    | inr gone ↦ rw (gone, log_in_known) (Stops-refuse _ s)
    | inl active ↦ elim (Option-cases (find_client_by_user_id s.clients (user_at s.users k).id)) [
      | inr (j, online) ↦ rw (active, online, log_in_known) (Stops-refuse _ s)
      | inl away ↦ rw (active, away, log_in_known) (Stops-log_in io k s)
    ]
  ]

  Stops-register : (io : Answers) (name : List ℕ) (s : Chat) → Stops (register io i name s)
  unfolding register
  Stops-register io name s = elim (Bool-cases (ltb (length s.users) max_users)) [
    | inr full ↦ rw (full, register) (Stops-refuse _ s)
    | inl room ↦
        let r = save io.saving (record s { users = add_user name (pos 0) s.users }) in
        elim (Bool-cases r.0) [
          | inr failed ↦ rw (room, failed, register) (Stops-refuse _ r.1)
          | inl saved ↦ rw (room, saved, register) (Stops-log_in io (length s.users) r.1)
        ]
  ]

  Stops-process_login : (io : Answers) (raw : List ℕ) (s : Chat) → Stops (process_login io i raw s)
  unfolding process_login
  Stops-process_login io raw s =
      let line = sanitize_message raw in
      elim (Bool-cases (is_empty line)) [
        | inl empty ↦ rw (empty, process_login) goes_on
        | inr text ↦ elim (Bool-cases (ltb (length line) username_size)) [
          | inr long ↦ rw (text, long, process_login) goes_on
          | inl fits ↦ elim (Option-cases (find_user_index_by_name s.users line)) [
            | inl fresh ↦ rw (text, fits, fresh, process_login) (Stops-register io line s)
            | inr (k, there) ↦ rw (text, fits, there, process_login) (Stops-log_in_known io k s)
          ]
        ]
      ]

  Stops-process_menu : (io : Answers) (line : List ℕ) (s : Chat) → Stops (process_menu io i line s)
  unfolding process_menu
  Stops-process_menu io line s = elim (Bool-cases (line ==s key_q)) [
    | inl q ↦ rw (q, process_menu) (Stops-refuse _ s)
    | inr not_q ↦ elim (Bool-cases (line ==s key_r)) [
      | inl r ↦ rw (not_q, r, process_menu) goes_on
      | inr not_r ↦ elim (Bool-cases (line ==s key_a)) [
        | inl a ↦ rw (not_q, not_r, a, process_menu) goes_on
        | inr not_a ↦ elim (Option-cases (name_after_n line)) [
          | inl other ↦ rw (not_q, not_r, not_a, other, process_menu) goes_on
          | inr (name, n) ↦ rw (not_q, not_r, not_a, n, process_menu) goes_on
        ]
      ]
    ]
  ]

  Stops-process_chat : (io : Answers) (line : List ℕ) (s : Chat) → Stops (process_chat io i line s)
  unfolding process_chat
  Stops-process_chat io line s = elim (Bool-cases (line ==s key_q)) [
    | inl q ↦ rw (q, process_chat) goes_on
    | inr not_q ↦ elim (Bool-cases (is_empty line)) [
      | inl empty ↦ rw (not_q, empty, process_chat) goes_on
      | inr text ↦
          elim (Option-cases (find_user_index_by_id s.users (client_at s i).chat_partner_id)) [
            | inl missing ↦ rw (not_q, text, missing, process_chat) goes_on
            | inr (k, there) ↦ elim (Bool-cases (truthy (user_at s.users k).active)) [
              | inr gone ↦ rw (not_q, text, there, gone, process_chat) goes_on
              | inl here ↦ rw (not_q, text, there, here, process_chat) goes_on
            ]
          ]
    ]
  ]

  Stops-process_admin :
      (io : Answers) (line : List ℕ) (s : Chat) → Stops (process_admin io i line s)
  unfolding process_admin
  Stops-process_admin io line s = goes_on

  -- For a client at an index below 100, `process_line` returns 0 only when it has disconnected the
  -- client.
  pub process_line_stops :
      (io : Answers) (raw : List ℕ) (s : Chat)
      → (process_line io i raw s).0 ≡ false
      → (client_at (process_line io i raw s).1 i).active ≡ false
  unfolding process_line
  process_line_stops io raw s = by_mode (client_at s i).mode refl
    where
      by_mode : (m : Mode) → (client_at s i).mode ≡ m → Stops (process_line io i raw s)
      by_mode mode_login m =
          rw (m, process_line) (Stops-process_login io (sanitize_message (c_string raw)) s)
      by_mode mode_menu m =
          rw (m, process_line) (Stops-process_menu io (sanitize_message (c_string raw)) s)
      by_mode mode_chat m =
          rw (m, process_line) (Stops-process_chat io (sanitize_message (c_string raw)) s)
      by_mode mode_admin m =
          rw (m, process_line) (Stops-process_admin io (sanitize_message (c_string raw)) s)

  module _ (io : ℕ → Answers) where
    next_line_stops :
        (line : List ℕ) (r : Running)
        → (next_line io i line r).0 ≡ false
        → (client_at (next_line io i line r).1.chat i).active ≡ false
    unfolding next_line
    next_line_stops line r e = process_line_stops (io r.lines) line r.chat e

    -- The bytes of a client at an index below 100 have the same effect on the server in two pieces
    -- as in one, if they fit the buffer together.
    pub receive-append_chat :
        (first second : List ℕ) (c : Conn Running)
        → length c.input + length first + length second < input_buffer_size
        → receive (server_of io i) second (receive (server_of io i) first c)
          ≡ receive (server_of io i) (first ++ second) c
    receive-append_chat first second c fits =
        receive-append (server_of io i) next_line_stops first second c fits

    -- The loop of `main` over the lines of a client at an index below 100 ends with no whole line in
    -- the buffer, if there was none before the event.
    pub receive-none_left_chat :
        (bytes : List ℕ) (c : Conn Running)
        → memchr newline c.input ≡ none
        → memchr newline (receive (server_of io i) bytes c).input ≡ none
    receive-none_left_chat bytes c before =
        receive-none_left (server_of io i) next_line_stops bytes c before
