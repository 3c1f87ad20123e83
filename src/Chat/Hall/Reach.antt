-- ===== src/Chat/Hall/Reach.antt =====
-- chat/server.c: what holds whenever `main` waits for the next event.
use linux_network_lab.Base.{
  [], All, ap, append-nil, ℕ, zero, suc, ◌≤◌, ◌≡◌, refl, sym, ap, subst, ◌∙◌, true, List, length,
  length-replicate, replicate, get_or, ℤ, arith,
}
use mathlib.Core.Bool.{false≢true}
use linux_network_lab.Chat.Users.{user_at, User}
use linux_network_lab.Chat.State.{max_clients, free_client, Answers}
use linux_network_lab.Chat.Events.{Event, run, start}
use linux_network_lab.Chat.Hall.{seat_of, hall, free_seat, seat_at, sits, Steps}
use linux_network_lab.Chat.Hall.Frame.{seat_at-hall}
use linux_network_lab.Base.Decimal.{FitsInt}
use linux_network_lab.Chat.Messages.{HistoryMessage}
use linux_network_lab.Chat.Messages.Stored.{IsStorable, print_messages}
use linux_network_lab.Chat.Hall.Archive.{Archive, Archive-Steps}
use linux_network_lab.Chat.Hall.Main.{run-Steps}
use linux_network_lab.Chat.Hall.Accounts.{Accounts}
use linux_network_lab.Chat.Hall.Ledger.{Kept, Kept-Steps}
use linux_network_lab.Chat.Hall.Admins.{Rules, Rules-Steps}
use linux_network_lab.Chat.Hall.Seats.{MayStay, MayStay-free, Authorized, Authorized-Steps}
use linux_network_lab.Chat.Hall.Sessions.{Sessions}
use linux_network_lab.Chat.Hall.Removal.{Sessions-Steps}

replicate_free : (n i : ℕ) → get_or (replicate n free_client) i free_client ≡ free_client
replicate_free zero i = refl
replicate_free (suc n) zero = refl
replicate_free (suc n) (suc i) = replicate_free n i

module _ (users : List User) (users_db messages_db : List ℕ) where
  -- All seats are free.
  start_seats : (i : ℕ) → seat_at (hall (start users users_db messages_db).chat) i ≡ free_seat
  unfolding start
  start_seats i =
      seat_at-hall i (start users users_db messages_db).chat
      ∙ ap seat_of (replicate_free max_clients i)

  start_users : (hall (start users users_db messages_db).chat).users ≡ users
  unfolding start
  start_users = refl

  start_room : length (start users users_db messages_db).chat.clients ≤ max_clients
  unfolding start
  start_room = omega (arith, length-replicate max_clients free_client)

  no_session :
      (i : ℕ) (id : ℤ)
      → sits id (seat_at (hall (start users users_db messages_db).chat) i) ≡ true
      → ¬ (true ≡ true)
  no_session i id e = absurd (false≢true (ap (sits id) (sym (start_seats i)) ∙ e))

  start-Sessions : Accounts users → Sessions (hall (start users users_db messages_db).chat)
  start-Sessions a = record {
    accounts = subst Accounts (sym start_users) a;
    held = λ i id e. absurd (no_session i id e refl);
    alone = λ i j id e f. absurd (no_session i id e refl);
  }

  start-Authorized : Authorized (hall (start users users_db messages_db).chat)
  start-Authorized i =
      subst (MayStay (hall (start users users_db messages_db).chat).users) (sym (start_seats i))
        (MayStay-free (hall (start users users_db messages_db).chat).users)

  module _ (io : ℕ → Answers) (es : List Event) where
    steps :
        Steps
          (hall (start users users_db messages_db).chat)
          (hall (run io es (start users users_db messages_db)).chat)
    steps = run-Steps io es (start users users_db messages_db) start_room

    -- If no two accounts share an id or a name at the start, and no id will wrap, the same holds
    -- after any events. Then each session is of an account that exists and is active, and no two
    -- clients have a session of one account.
    pub run-Sessions :
        Accounts users → Sessions (hall (run io es (start users users_db messages_db)).chat)
    run-Sessions a = Sessions-Steps steps (start-Sessions a)

    -- After any events a client that is past the login is logged in, and a client on the
    -- administrator's page is an administrator.
    pub run-Authorized : Authorized (hall (run io es (start users users_db messages_db)).chat)
    run-Authorized = Authorized-Steps steps start-Authorized

    -- Any events keep each account in its place, with its id, its name and its rights.
    pub run-Kept : Kept users (run io es (start users users_db messages_db)).chat.users
    run-Kept =
        subst (λ us. Kept us (run io es (start users users_db messages_db)).chat.users) start_users
          (Kept-Steps steps)

    -- The account of an administrator that is active at the start is active after any events.
    pub run-Rules :
        (k : ℕ) → Rules k users → Rules k (run io es (start users users_db messages_db)).chat.users
    run-Rules k r = Rules-Steps k steps (subst (Rules k) (sym start_users) r)

start-Archive :
    (users : List User) (users_db : List ℕ) (old : List HistoryMessage)
    → All IsStorable old
    → ((k : ℕ) → FitsInt (user_at users k).id)
    → Archive old (hall (start users users_db (print_messages old)).chat)
unfolding start
start-Archive users users_db old storable ids = record {
  ids = record {
    of_users = ids;
    of_seats = λ i.
        subst (λ x. FitsInt x.user_id) (sym (start_seats users users_db (print_messages old) i))
          (omega arith);
  };
  later = [];
  storable = subst (All IsStorable) (sym (append-nil old)) storable;
  file = ap print_messages (sym (append-nil old));
}

-- If the messages at the start fit their lines and the users' ids are `int`s, then after any events
-- `messages.db` holds those messages, unchanged and in their order, and behind them further ones,
-- each of which fits its line: numbers of their types and a text of at most 1023 bytes with no line
-- feed and no NUL.
pub run-Archive :
    (users : List User) (users_db : List ℕ) (io : ℕ → Answers) (es : List Event)
    (old : List HistoryMessage)
    → All IsStorable old
    → ((k : ℕ) → FitsInt (user_at users k).id)
    → Archive old (hall (run io es (start users users_db (print_messages old))).chat)
run-Archive users users_db io es old storable ids =
    Archive-Steps old (steps users users_db (print_messages old) io es)
      (start-Archive users users_db old storable ids)
