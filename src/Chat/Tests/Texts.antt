-- ===== src/Chat/Tests/Texts.antt =====
-- chat/server.c: the two text files at concrete contents.
use linux_network_lab.Base.{
  ℕ, ◌≡◌, refl, ap, Bool, true, false, List, [], ◌∷◌, ◌++◌, some, arith, pos, find_index, ◌==s◌,
}
use mathlib.Core.Bool.{false≢true}
use linux_network_lab.Chat.Users.{User, find_user_index_by_name}
use linux_network_lab.Chat.Users.Db.{SaveAnswers, ahmet, save_users, load_users}
use linux_network_lab.Chat.Users.Db.Reload.{HasAdmin, load_users-save_users}
use linux_network_lab.Chat.Users.Db.RoundTrip
use linux_network_lab.Chat.Users.Db.RoundTrip.{IsStorable}
use linux_network_lab.Chat.Send.{send_all, took, send_interrupted, all_sent, send_all_lem}
use linux_network_lab.Chat.Messages.{HistoryMessage, append_message, last_messages, conversations}
use linux_network_lab.Chat.Messages.Stored
use linux_network_lab.Chat.Messages.Stored.{print_messages}
use linux_network_lab.Chat.Messages.Between.{exchanged}
use linux_network_lab.Chat.Messages.History.{
  last_ten, sent_message, last_messages-print_messages, last_messages-append_message,
}
use linux_network_lab.Chat.Messages.Contacts.{Sorted, conversations_lem}
use linux_network_lab.Chat.Messages.Noted.{AreContacts}

abbrev admin_user : User
admin_user = record { id = pos 1; username = ahmet; active = pos 1; is_admin = pos 1 }

abbrev table : List User
table = admin_user ∷ []

abbrev pub good : SaveAnswers
good = record { opened = true; renamed = true }

abbrev empty_test : List ℕ → Bool
empty_test [] = true
empty_test (x ∷ xs) = false

admin_user-IsStorable : RoundTrip.IsStorable admin_user
admin_user-IsStorable = record {
  id_fits = omega arith;
  active_fits = omega arith;
  admin_fits = omega arith;
  named = λ e. false≢true (ap empty_test e);
  short = omega arith;
  no_bar = (
    λ e. omega (arith, e),
    (
      λ e. omega (arith, e),
      (λ e. omega (arith, e), (λ e. omega (arith, e), (λ e. omega (arith, e), tt))),
    ),
  );
  no_line_feed = (
    λ e. omega (arith, e),
    (
      λ e. omega (arith, e),
      (λ e. omega (arith, e), (λ e. omega (arith, e), (λ e. omega (arith, e), tt))),
    ),
  );
  no_nul = (
    λ e. omega (arith, e),
    (
      λ e. omega (arith, e),
      (λ e. omega (arith, e), (λ e. omega (arith, e), (λ e. omega (arith, e), tt))),
    ),
  );
}

table-HasAdmin : HasAdmin table
unfolding find_user_index_by_name find_index ◌==s◌
table-HasAdmin = record { place = 0; found = refl; is_active = refl; admin = refl }

-- What the table is stored as.
pub saved_table :
    (bytes : List ℕ) × (save_users good table ≡ some bytes)
    × (load_users good bytes ≡ some (table, bytes))
saved_table =
    load_users-save_users good table refl refl (admin_user-IsStorable, tt) (omega arith)
      table-HasAdmin

load_users-save_users_example :
    (bytes : List ℕ) × (save_users good table ≡ some bytes)
    × (load_users good bytes ≡ some (table, bytes))
load_users-save_users_example =
    load_users-save_users good table refl refl (admin_user-IsStorable, tt) (omega arith)
      table-HasAdmin

-- "hi", from user 1 to user 2.
abbrev pub hello : HistoryMessage
hello = record {
  timestamp = pos 1000;
  sender_id = pos 1;
  receiver_id = pos 2;
  message = 104 ∷ 105 ∷ [];
}

pub hello-IsStorable : Stored.IsStorable hello
hello-IsStorable = record {
  time_fits = omega arith;
  sender_fits = omega arith;
  receiver_fits = omega arith;
  short = omega arith;
  no_line_feed = (λ e. omega (arith, e), (λ e. omega (arith, e), tt));
  no_nul = (λ e. omega (arith, e), (λ e. omega (arith, e), tt));
}

last_messages-print_messages_example :
    last_messages (pos 2) (pos 1) (print_messages (hello ∷ []))
    ≡ last_ten (exchanged (pos 2) (pos 1) (hello ∷ []))
last_messages-print_messages_example =
    last_messages-print_messages (pos 2) (pos 1) (hello ∷ []) (hello-IsStorable, tt)

last_messages-append_message_example :
    last_messages
      (pos 2)
      (pos 1)
      (append_message (pos 1001) (pos 2) (pos 1) (124 ∷ []) (print_messages (hello ∷ [])))
    ≡ last_ten (
        exchanged (pos 2) (pos 1) (hello ∷ [])
        ++ sent_message (pos 1001) (pos 2) (pos 1) (124 ∷ []) ∷ [])
last_messages-append_message_example =
    last_messages-append_message (pos 1001) (pos 2) (pos 1) (124 ∷ []) (hello ∷ [])
      (hello-IsStorable, tt) (omega arith) (omega arith) (omega arith) (λ e. omega (arith, e), tt)

conversations_lem_example :
    Sorted (conversations (pos 1) (print_messages (hello ∷ [])))
    × AreContacts (pos 1) (hello ∷ []) (conversations (pos 1) (print_messages (hello ∷ [])))
conversations_lem_example = conversations_lem (pos 1) (hello ∷ []) (hello-IsStorable, tt)

-- Two bytes, of which `send` takes one at a time and is interrupted between.
send_all_lem_example :
    send_all (104 ∷ 105 ∷ []) (took 1 ∷ send_interrupted ∷ took 1 ∷ []) ≡ (104 ∷ 105 ∷ [], all_sent)
send_all_lem_example =
    send_all_lem (104 ∷ 105 ∷ []) (took 1 ∷ send_interrupted ∷ took 1 ∷ []) tt (omega arith)
