-- ===== src/Chat/Events.antt =====
-- chat/server.c: `main`, one event of `epoll_wait` after the other.
use linux_network_lab.Base.{
  ℕ, suc, Bool, true, false, ◌&&◌, List, [], ◌∷◌, ◌++◌, Option, none, some, find_index, ℤ,
  minus_one, ◌==ℤ◌, replicate,
}
use linux_network_lab.Chat.Input.{Server, Conn, receive}
use linux_network_lab.Chat.Users.{User}
use linux_network_lab.Chat.State.{
  max_clients, Client, free_client, ask_username, server_full, line_too_long, Chat, Answers,
  client_at, set_client, tell, find_free_client_slot, disconnect_client,
}
use linux_network_lab.Chat.Admin.{process_line}

-- The chat, and how many lines have been processed; the system has its own answers for each.
pub record Running : Type 0 where
  pub chat : Chat
  pub lines : ℕ

-- What `epoll_wait` reports of a file descriptor, with what `accept`, `epoll_ctl` and `recv` then
-- return. `accept_failed` and `interrupted` (`EINTR`) change nothing.
pub data Event : Type 0 where
  accept_failed : Event
  accepted : ℤ → (added : Bool) → Event
  interrupted receive_failed hung_up : ℤ → Event
  received : ℤ → List ℕ → Event

abbrev pub new_client : ℤ → Client
new_client fd = record free_client {
  fd = fd;
  active = true;
  user_id = minus_one;
  chat_partner_id = minus_one;
}

unfoldable pub take_in : ℤ → Bool → Option ℕ → Chat → Chat
take_in fd added none s = record s {
  sent = s.sent ++ (fd, server_full) ∷ [];
  closed = s.closed ++ fd ∷ [];
}
take_in fd false (some i) s = disconnect_client i (set_client i (new_client fd) s)
take_in fd true (some i) s = tell i ask_username (set_client i (new_client fd) s)

abbrev pub has_fd : ℤ → Client → Bool
has_fd fd c = c.active && c.fd ==ℤ fd

unfoldable pub find_client_by_fd : List Client → ℤ → Option ℕ
find_client_by_fd clients fd = find_index (has_fd fd) clients

unfoldable pub drop_client : Option ℕ → Chat → Chat
drop_client none s = s
drop_client (some i) s = disconnect_client i s

module _ (io : ℕ → Answers) where
  unfoldable pub next_line : ℕ → List ℕ → Running → Bool × Running
  next_line i line r =
      let p = process_line (io r.lines) i line r.chat in
      (p.0, record { chat = p.1; lines = suc r.lines })

  -- The client at `i`, as the loop over its lines sees the rest of the program.
  abbrev pub server_of : ℕ → Server Running
  server_of i = record {
    is_active = λ r. (client_at r.chat i).active;
    process_line = next_line i;
    too_long = λ r. record r { chat = tell i line_too_long r.chat };
  }

  -- What is left in the buffer is kept with the client.
  unfoldable pub put_back : ℕ → Conn Running → Running
  put_back i c = record c.server {
    chat = set_client i (record (client_at c.server.chat i) { input = c.input }) c.server.chat;
  }

  unfoldable pub take_bytes : Option ℕ → List ℕ → Running → Running
  take_bytes none bytes r = r
  take_bytes (some i) bytes r =
      put_back i
        (receive (server_of i) bytes (record { input = (client_at r.chat i).input; server = r }))

  unfoldable pub handle_event : Event → Running → Running
  handle_event accept_failed r = r
  handle_event (accepted fd added) r = record r {
    chat = take_in fd added (find_free_client_slot r.chat.clients) r.chat;
  }
  handle_event (interrupted fd) r = r
  handle_event (receive_failed fd) r = record r {
    chat = drop_client (find_client_by_fd r.chat.clients fd) r.chat;
  }
  handle_event (hung_up fd) r = record r {
    chat = drop_client (find_client_by_fd r.chat.clients fd) r.chat;
  }
  handle_event (received fd bytes) r = take_bytes (find_client_by_fd r.chat.clients fd) bytes r

  unfoldable pub run : List Event → Running → Running
  run [] r = r
  run (e ∷ es) r = run es (handle_event e r)

-- What `main` starts with, after `load_users`.
unfoldable pub start : List User → List ℕ → List ℕ → Running
start users users_db messages_db = record {
  chat = record {
    users = users;
    clients = replicate max_clients free_client;
    users_db = users_db;
    messages_db = messages_db;
    sent = [];
    closed = [];
  };
  lines = 0;
}
