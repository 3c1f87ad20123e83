-- ===== src/Chat/Hall.antt =====
-- What chat/server.c promises about accounts and sessions: the table of users, for each client
-- who sits there and what it may do, and the stored messages. Replies, `users.db` and buffers are left
-- out.
pub mod Frame
pub mod Menu
pub mod Users
pub mod Admin
pub mod Refines
pub mod Main
pub mod Table
pub mod Numbers
pub mod Accounts
pub mod Ledger
pub mod Seats
pub mod Sessions
pub mod Removal
pub mod Admins
pub mod Archive
pub mod Reach
pub mod Always
use linux_network_lab.Base.{
  ℕ, ◌<◌, ◌≡◌, Bool, true, false, ◌&&◌, List, Option, none, some, length, map, set, get_or,
  find_index, ℤ, pos, minus_one, ◌==ℤ◌, Lacks,
}
use linux_network_lab.Chat.Users.{
  User, truthy, user_at, find_user_index_by_name, add_user, max_users,
}
use linux_network_lab.Chat.State
use linux_network_lab.Chat.State.{
  Mode, mode_login, mode_menu, mode_chat, mode_admin, Client, Chat, Long,
}
use linux_network_lab.Chat.Files.{nul}
use linux_network_lab.Chat.Messages.{append_message}
use linux_network_lab.Chat.Pages.{is_admin_id}

pub record Seat : Type 0 where
  pub here : Bool
  pub logged_in : Bool
  pub user_id : ℤ
  pub mode : Mode

abbrev pub seat_of : Client → Seat
seat_of c = record { here = c.active; logged_in = c.logged_in; user_id = c.user_id; mode = c.mode }

pub record Hall : Type 0 where
  pub users : List User
  pub seats : List Seat
  pub messages_db : List ℕ

abbrev pub hall : Chat → Hall
hall s = record { users = s.users; seats = map seat_of s.clients; messages_db = s.messages_db }

abbrev pub free_seat : Seat
free_seat = record { here = false; logged_in = false; user_id = pos 0; mode = mode_login }

-- Somebody who has not said who it is.
abbrev pub newcomer : Seat
newcomer = record { here = true; logged_in = false; user_id = minus_one; mode = mode_login }

abbrev pub seat_at : Hall → ℕ → Seat
seat_at h i = get_or h.seats i free_seat

abbrev pub put : ℕ → Seat → Hall → Hall
put i x h = record h { seats = set h.seats i x }

-- The seat holds a session of that user.
abbrev pub sits : ℤ → Seat → Bool
sits id x = x.here && (x.logged_in && x.user_id ==ℤ id)

abbrev pub session : ℤ → Seat → Seat
session id x = record x { logged_in = true; user_id = id; mode = mode_menu }

abbrev pub evict : Option ℕ → Hall → Hall
evict none h = h
evict (some j) h = put j free_seat h

abbrev pub with_active : ℕ → ℤ → Hall → Hall
with_active k active h = record h {
  users = set h.users k (record (user_at h.users k) { active = active });
}

abbrev pub may_rule : Hall → Seat → Bool
may_rule h x = is_admin_id h.users x.user_id

-- One step of the abstract server.
pub data Step (h : Hall) : Hall → Type 0 where
  -- A free seat is taken.
  comes : (i : ℕ) → i < length h.seats → (seat_at h i).here ≡ false → Step h (put i newcomer h)
  leaves : (i : ℕ) → Step h (put i free_seat h)
  -- The account is active, and nobody is logged in with it.
  logs_in :
      (i k : ℕ)
      → (seat_at h i).mode ≡ mode_login
      → k < length h.users
      → truthy (user_at h.users k).active ≡ true
      → find_index (sits (user_at h.users k).id) h.seats ≡ none
      → Step h (put i (session (user_at h.users k).id (seat_at h i)) h)
  -- A new name gets an account.
  registers :
      (name : List ℕ)
      → find_user_index_by_name h.users name ≡ none
      → length h.users < max_users
      → Step h (record h { users = add_user name (pos 0) h.users })
  -- The newest account may be used at once.
  enters :
      (i : ℕ) (name : List ℕ)
      → (seat_at h i).mode ≡ mode_login
      → find_user_index_by_name h.users name ≡ none
      → length h.users < max_users
      → Step h (
          put i
            (session (user_at (add_user name (pos 0) h.users) (length h.users)).id (seat_at h i))
            (record h { users = add_user name (pos 0) h.users }))
  reads :
      (i : ℕ)
      → (seat_at h i).mode ≡ mode_menu
      → Step h (put i (record (seat_at h i) { mode = mode_chat }) h)
  returns_from_chat :
      (i : ℕ)
      → (seat_at h i).mode ≡ mode_chat
      → Step h (put i (record (seat_at h i) { mode = mode_menu }) h)
  returns_from_admin :
      (i : ℕ)
      → (seat_at h i).mode ≡ mode_admin
      → Step h (put i (record (seat_at h i) { mode = mode_menu }) h)
  -- A message to an active account is stored.
  sends :
      (i k : ℕ) (now : Long) (text : List ℕ)
      → (seat_at h i).mode ≡ mode_chat
      → k < length h.users
      → truthy (user_at h.users k).active ≡ true
      → Lacks nul text
      → Step h (record h {
        messages_db =
            append_message now.value
              (seat_at h i).user_id
              (user_at h.users k).id
              text
              h.messages_db;
      })
  rules :
      (i : ℕ)
      → (seat_at h i).mode ≡ mode_menu
      → may_rule h (seat_at h i) ≡ true
      → Step h (put i (record (seat_at h i) { mode = mode_admin }) h)
  -- An administrator removes an account; its session ends with it.
  removes :
      (i k : ℕ)
      → (seat_at h i).mode ≡ mode_admin
      → k < length h.users
      → truthy (user_at h.users k).is_admin ≡ false
      → truthy (user_at h.users k).active ≡ true
      → Step h (with_active k (pos 0) (evict (find_index (sits (user_at h.users k).id) h.seats) h))
  restores :
      (i k : ℕ)
      → (seat_at h i).mode ≡ mode_admin
      → k < length h.users
      → truthy (user_at h.users k).active ≡ false
      → Step h (with_active k (pos 1) h)

pub data Steps (h : Hall) : Hall → Type 0 where
  still : Steps h h
  more : {g k : Hall} → Steps h g → Step g k → Steps h k
