-- ===== src/Chat/Tests/Scenario.antt =====
-- chat/server.c: a run in which the administrator removes a user who is logged in.
use linux_network_lab.Base.{
  zero, suc, ◌++◌, ℕ, ◌≤◌, ◌≡◌, refl, true, List, [], ◌∷◌, ◌++◌, none, length, arith, pos,
}
use linux_network_lab.Chat.Input.{memchr, newline, Conn, receive}
use linux_network_lab.Chat.Users.{user_at, User, get_max_user_id, max_user_id_from}
use linux_network_lab.Chat.Users.Db.{ahmet}
use linux_network_lab.Chat.State.{max_clients, Answers}
use linux_network_lab.Chat.Events.{Running, Event, accepted, received, run, start, server_of}
use linux_network_lab.Chat.Hall.{hall, Steps}
use linux_network_lab.Chat.Hall.Main.{run-Steps}
use linux_network_lab.Chat.Hall.Accounts.{Accounts}
use linux_network_lab.Chat.Hall.Ledger.{Kept}
use linux_network_lab.Chat.Hall.Admins.{Rules}
use linux_network_lab.Chat.Hall.Seats.{Authorized}
use linux_network_lab.Chat.Hall.Sessions.{Sessions}
use linux_network_lab.Base.Decimal.{FitsInt}
use linux_network_lab.Chat.Messages.Stored.{print_messages}
use linux_network_lab.Chat.Hall.Always.{HasRuler, run-HasRuler}
use linux_network_lab.Chat.Tests.Texts.{good, saved_table, hello, hello-IsStorable}
use linux_network_lab.Chat.Hall.Archive.{Archive}
use linux_network_lab.Chat.Hall.Reach.{
  run-Archive, run-Sessions, run-Authorized, run-Kept, run-Rules,
}
use linux_network_lab.Chat.Gone.{receive-append_chat, receive-none_left_chat}

abbrev admin_user : User
admin_user = record { id = pos 1; username = ahmet; active = pos 1; is_admin = pos 1 }

abbrev table : List User
table = admin_user ∷ []

abbrev all_good : ℕ → Answers
all_good n = record {
  saving = record { opened = true; renamed = true };
  append_opened = true;
  read_opened = true;
  now = record { value = pos 1000; fits = omega arith };
}

-- "ahmet", "bo", "a" and "d 2", each with its newline.
abbrev bo : List ℕ
bo = 98 ∷ 111 ∷ []

abbrev events : List Event
events =
    accepted (pos 5) true
    ∷ received (pos 5) (ahmet ++ 10 ∷ [])
    ∷ accepted (pos 6) true
    ∷ received (pos 6) (98 ∷ [])
    ∷ received (pos 6) (111 ∷ 10 ∷ [])
    ∷ received (pos 5) (97 ∷ 10 ∷ 100 ∷ 32 ∷ 50 ∷ 10 ∷ [])
    ∷ []

abbrev begun : Running
begun = start table [] []

Accounts-table : Accounts table
unfolding get_max_user_id max_user_id_from
Accounts-table = record {
  numbers = omega arith;
  ids = λ i j li lj e. omega (arith, li, lj);
  names = λ i j li lj e. omega (arith, li, lj);
}

begun_room : length begun.chat.clients ≤ max_clients
unfolding start
begun_room = omega arith

run-Steps_example : Steps (hall begun.chat) (hall (run all_good events begun).chat)
run-Steps_example = run-Steps all_good events begun begun_room

run-Sessions_example : Sessions (hall (run all_good events (start table [] [])).chat)
run-Sessions_example = run-Sessions table [] [] all_good events Accounts-table

run-Authorized_example : Authorized (hall (run all_good events (start table [] [])).chat)
run-Authorized_example = run-Authorized table [] [] all_good events

run-Kept_example : Kept table (run all_good events (start table [] [])).chat.users
run-Kept_example = run-Kept table [] [] all_good events

first_admin : Rules 0 (run all_good events (start table [] [])).chat.users
first_admin =
    run-Rules table [] [] all_good events 0
      (record { within = omega arith; admin = refl; active = refl })

-- The first client is at index 0, with an empty buffer.
abbrev first_conn : Conn Running
first_conn = record { input = []; server = run all_good (accepted (pos 5) true ∷ []) begun }

receive-append_chat_example :
    receive
      (server_of all_good 0)
      (101 ∷ 116 ∷ 10 ∷ [])
      (receive (server_of all_good 0) (97 ∷ 104 ∷ 109 ∷ []) first_conn)
    ≡ receive (server_of all_good 0) (97 ∷ 104 ∷ 109 ∷ 101 ∷ 116 ∷ 10 ∷ []) first_conn
receive-append_chat_example =
    receive-append_chat 0 (omega arith) all_good (97 ∷ 104 ∷ 109 ∷ []) (101 ∷ 116 ∷ 10 ∷ [])
      first_conn (omega arith)

no_bytes_yet : memchr newline first_conn.input ≡ none
unfolding memchr
no_bytes_yet = refl

receive-none_left_chat_example :
    memchr newline
      (receive (server_of all_good 0) (98 ∷ 111 ∷ 10 ∷ 113 ∷ 10 ∷ 98 ∷ []) first_conn).input
    ≡ none
receive-none_left_chat_example =
    receive-none_left_chat 0 (omega arith) all_good (98 ∷ 111 ∷ 10 ∷ 113 ∷ 10 ∷ 98 ∷ []) first_conn
      no_bytes_yet

-- "bo" writes "hi" to ahmet.
abbrev talk : List Event
talk =
    accepted (pos 5) true
    ∷ received (pos 5) (ahmet ++ 10 ∷ [])
    ∷ accepted (pos 6) true
    ∷ received (pos 6) (bo ++ 10 ∷ [])
    ∷ received (pos 6) (110 ∷ 32 ∷ ahmet ++ 10 ∷ 104 ∷ 105 ∷ 10 ∷ [])
    ∷ []

table_ids : (k : ℕ) → FitsInt (user_at table k).id
table_ids zero = omega arith
table_ids (suc k) = omega arith

run-Archive_example :
    Archive
      (hello ∷ [])
      (hall (run all_good talk (start table [] (print_messages (hello ∷ [])))).chat)
run-Archive_example =
    run-Archive table [] all_good talk (hello ∷ []) (hello-IsStorable, tt) table_ids

run-HasRuler_example : HasRuler (run all_good events (start table saved_table.0 [])).chat.users
run-HasRuler_example =
    run-HasRuler all_good events good saved_table.0 saved_table.0 [] table saved_table.2
