-- ===== src/Chat/State.antt =====
-- chat/server.c: the clients, the files, and what has been sent and closed.
use linux_network_lab.Base.{
  ℕ, Bool, true, false, not, ◌&&◌, List, [], ◌∷◌, ◌++◌, Option, none, some, set, get_or, ltb,
  if◌then◌else◌, find_index, ℤ, pos, minus_one, ◌==ℤ◌,
}
use linux_network_lab.Base.Decimal.{FitsLong}
use linux_network_lab.Chat.Users.{User}
use linux_network_lab.Chat.Users.Db.{SaveAnswers, save_users}

abbrev pub max_clients : ℕ
max_clients = 100

-- `enum ClientMode`
pub data Mode : Type 0 where
  mode_login mode_menu mode_chat mode_admin : Mode

-- `struct Client`. Of `input_buffer` and `menu_contact_ids` the part in use is kept.
pub record Client : Type 0 where
  pub fd : ℤ
  pub active : Bool
  pub logged_in : Bool
  pub user_id : ℤ
  pub mode : Mode
  pub chat_partner_id : ℤ
  pub input : List ℕ
  pub menu_contact_ids : List ℤ

-- A slot that is cleared, with its `fd` at -1.
abbrev pub free_client : Client
free_client = record {
  fd = minus_one;
  active = false;
  logged_in = false;
  user_id = pos 0;
  mode = mode_login;
  chat_partner_id = pos 0;
  input = [];
  menu_contact_ids = [];
}

-- The texts that are sent, with what is filled in.
pub data Reply : Type 0 where
  ask_username username_empty username_long account_removed already_logged_in : Reply
  database_full user_not_saved server_full line_too_long goodbye prompt : Reply
  welcome : List ℕ → ℤ → Bool → Reply
  chats_header no_conversations menu_help menu_admin_help menu_footer : Reply
  contact : ℕ → List ℕ → Bool → Bool → Reply
  user_not_found not_with_yourself no_such_user invalid_command access_denied : Reply
  chat_header : List ℕ → Reply
  read_only leave_hint : Reply
  no_previous_messages history_header history_footer : Reply
  history_line : ℤ → List ℕ → List ℕ → Reply
  partner_gone not_saved : Reply
  unavailable stored new_message : List ℕ → Reply
  message : List ℕ → List ℕ → Reply
  admin_header admin_help : Reply
  admin_entry : ℕ → User → Reply
  invalid_admin_command invalid_user_number admin_stays already_removed : Reply
  removed_by_admin already_active unknown_admin_command : Reply
  removed restored : List ℕ → Reply

pub record Chat : Type 0 where
  pub users : List User
  pub clients : List Client
  pub users_db : List ℕ
  pub messages_db : List ℕ
  pub sent : List (ℤ × Reply)
  pub closed : List ℤ

-- A value of the C type `long`.
pub record Long : Type 0 where
  pub value : ℤ
  pub fits : FitsLong value

-- What the system answers while one line is processed: to `save_users`, to `fopen` of
-- `messages.db` for writing and for reading, and the time.
pub record Answers : Type 0 where
  pub saving : SaveAnswers
  pub append_opened : Bool
  pub read_opened : Bool
  pub now : Long

abbrev pub client_at : Chat → ℕ → Client
client_at s i = get_or s.clients i free_client

abbrev pub set_client : ℕ → Client → Chat → Chat
set_client i c s = record s { clients = set s.clients i c }

-- `send_text` and `send_format` to the client at `i`.
abbrev pub tell : ℕ → Reply → Chat → Chat
tell i r s = record s { sent = s.sent ++ ((client_at s i).fd, r) ∷ [] }

abbrev pub has_user : ℤ → Client → Bool
has_user id c = c.active && (c.logged_in && c.user_id ==ℤ id)

unfoldable pub find_client_by_user_id : List Client → ℤ → Option ℕ
find_client_by_user_id clients id = find_index (has_user id) clients

unfoldable pub find_free_client_slot : List Client → Option ℕ
find_free_client_slot clients = find_index (λ c. not c.active) clients

unfoldable pub disconnect_client : ℕ → Chat → Chat
disconnect_client i s =
    if not (ltb i max_clients) then s else if not (client_at s i).active then s else record s {
      clients = set s.clients i free_client;
      closed = s.closed ++ (client_at s i).fd ∷ [];
    }

-- `save_users`, and whether it succeeded.
unfoldable pub save : SaveAnswers → Chat → Bool × Chat
save io s = elim (save_users io s.users) [
  | none ↦ (false, s)
  | some bytes ↦ (true, record s { users_db = bytes })
]
