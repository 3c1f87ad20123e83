-- ===== src/Chat/Hall/Archive.antt =====
-- chat/server.c: the stored messages, through every step of the abstract server.
use linux_network_lab.Base.{
  ℕ, zero, suc, ◌^◌, ◌≡◌, refl, sym, ap, subst, ◌∙◌, inl, inr, List, [], ◌∷◌, ◌++◌, append_assoc,
  Option, none, some, length, All, find_index, ℤ, pos, ltb, Bool-cases, arith, Lacks,
}
use linux_network_lab.Base.Decimal.{FitsInt}
use linux_network_lab.Chat.Files.{nul}
use linux_network_lab.Chat.Users.{User, zero_user, user_at, next_int, get_max_user_id, add_user}
use linux_network_lab.Chat.Messages.{HistoryMessage, append_message}
use linux_network_lab.Chat.Messages.Stored.{IsStorable, print_messages}
use linux_network_lab.Chat.Messages.History.{
  sent_message, sent_message-IsStorable, print_messages-append, All-append,
}
use linux_network_lab.Chat.State.{Long}
use linux_network_lab.Chat.Hall.{
  Seat, Hall, free_seat, newcomer, seat_at, put, sits, session, evict, Step, comes, leaves, logs_in,
  registers, enters, reads, returns_from_chat, returns_from_admin, sends, rules, removes, restores,
  Steps, still, more,
}
use linux_network_lab.Chat.Hall.Table.{activated, id_kept}
use linux_network_lab.Chat.Hall.Numbers.{newest}
use linux_network_lab.Chat.Hall.Seats.{seat_at-put}

-- All ids are `int`s.
pub record Ids (h : Hall) : Type 0 where
  pub of_users : (k : ℕ) → FitsInt (user_at h.users k).id
  pub of_seats : (i : ℕ) → FitsInt (seat_at h i).user_id

Ids-put : (h : Hall) (i : ℕ) (x : Seat) → FitsInt x.user_id → Ids h → Ids (put i x h)
Ids-put h i x f d = record {
  of_users = d.of_users;
  of_seats = λ j. elim (seat_at-put h.seats i j x) [
    | inl (p, e) ↦ subst (λ y. FitsInt y.user_id) (sym e) f
    | inr e ↦ subst (λ y. FitsInt y.user_id) (sym e) (d.of_seats j)
  ];
}

next_int_fits : (n : ℕ) → FitsInt (next_int n)
next_int_fits n = elim (Bool-cases (ltb (suc n) (2 ^ 31))) [
  | inl small ↦ rw small (ground arith)
  | inr wraps ↦ rw wraps (ground arith)
]

user_past :
    (users : List User) (u : User) (k : ℕ)
    → FitsInt u.id
    → ((j : ℕ) → FitsInt (user_at users j).id)
    → FitsInt (user_at (users ++ u ∷ []) k).id
user_past [] u zero f d = f
user_past [] u (suc k) f d = omega arith
user_past (v ∷ users) u zero f d = d 0
user_past (v ∷ users) u (suc k) f d = user_past users u k f (λ j. d (suc j))

Ids-add_user :
    (name : List ℕ) (h : Hall) → Ids h → Ids (record h { users = add_user name (pos 0) h.users })
unfolding add_user
Ids-add_user name h d = record {
  of_users = λ k.
      user_past h.users _ k (next_int_fits (get_max_user_id (h.users ++ zero_user ∷ [])))
        d.of_users;
  of_seats = d.of_seats;
}

Ids-activated :
    (h : Hall) (k : ℕ) (a : ℤ) → Ids h → Ids (record h { users = activated h.users k a })
Ids-activated h k a d = record {
  of_users = λ j. subst FitsInt (sym (id_kept h.users k j a)) (d.of_users j);
  of_seats = d.of_seats;
}

Ids-evict : (o : Option ℕ) (h : Hall) → Ids h → Ids (evict o h)
Ids-evict none h d = d
Ids-evict (some j) h d = Ids-put h j free_seat (omega arith) d

-- The file holds the messages `old` and further ones, each of which fits its line.
pub record Archive (old : List HistoryMessage) (h : Hall) : Type 0 where
  pub ids : Ids h
  pub later : List HistoryMessage
  pub storable : All IsStorable (old ++ later)
  pub file : h.messages_db ≡ print_messages (old ++ later)

-- A step that stores nothing.
kept :
    (old : List HistoryMessage) (h g : Hall)
    → g.messages_db ≡ h.messages_db
    → (Ids h → Ids g)
    → Archive old h
    → Archive old g
kept old h g e ids a = record {
  ids = ids a.ids;
  later = a.later;
  storable = a.storable;
  file = e ∙ a.file;
}

kept_seat :
    (old : List HistoryMessage) (h : Hall) (i : ℕ) (x : Seat)
    → (Ids h → FitsInt x.user_id)
    → Archive old h
    → Archive old (put i x h)
kept_seat old h i x f a = kept old h (put i x h) refl (λ d. Ids-put h i x (f d) d) a

stored :
    (old : List HistoryMessage) (h : Hall) (i k : ℕ) (now : Long) (text : List ℕ)
    → Lacks nul text
    → Archive old h
    → Archive old (record h {
      messages_db =
          append_message now.value (seat_at h i).user_id (user_at h.users k).id text h.messages_db;
    })
unfolding append_message
stored old h i k now text clean a =
    let sender = (seat_at h i).user_id in
    let receiver = (user_at h.users k).id in
    let m = sent_message now.value sender receiver text in
    let fits : IsStorable m =
      sent_message-IsStorable now.value sender receiver text now.fits (a.ids.of_seats i)
        (a.ids.of_users k) clean in
    let longer = append_assoc old a.later (m ∷ []) in
    record {
      ids = record { of_users = a.ids.of_users; of_seats = a.ids.of_seats };
      later = a.later ++ m ∷ [];
      storable = subst (All IsStorable) longer (All-append (old ++ a.later) m a.storable fits);
      file =
          ap (λ db. append_message now.value sender receiver text db) a.file
          ∙ print_messages-append (old ++ a.later) m
          ∙ ap print_messages longer;
    }

messages-evict : (o : Option ℕ) (h : Hall) → (evict o h).messages_db ≡ h.messages_db
messages-evict none h = refl
messages-evict (some j) h = refl

Archive-Step : {h g : Hall} (old : List HistoryMessage) → Step h g → Archive old h → Archive old g
Archive-Step {h} old (comes i w f) a = kept_seat old h i newcomer (λ d. omega arith) a
Archive-Step {h} old (leaves i) a = kept_seat old h i free_seat (λ d. omega arith) a
Archive-Step {h} old (logs_in i k l w e n) a =
    kept_seat old h i (session (user_at h.users k).id (seat_at h i)) (λ d. d.of_users k) a
Archive-Step {h} old (registers name f r) a =
    kept old h (record h { users = add_user name (pos 0) h.users }) refl (Ids-add_user name h) a
Archive-Step {h} old (enters i name l f r) a =
    let g : Hall = record h { users = add_user name (pos 0) h.users } in
    kept_seat old g i (session (newest name h.users).id (seat_at h i))
      (λ d. d.of_users (length h.users)) (kept old h g refl (Ids-add_user name h) a)
Archive-Step {h} old (reads i m) a = kept_seat old h i _ (λ d. d.of_seats i) a
Archive-Step {h} old (returns_from_chat i m) a = kept_seat old h i _ (λ d. d.of_seats i) a
Archive-Step {h} old (returns_from_admin i m) a = kept_seat old h i _ (λ d. d.of_seats i) a
Archive-Step {h} old (sends i k now text m w on clean) a = stored old h i k now text clean a
Archive-Step {h} old (rules i m r) a = kept_seat old h i _ (λ d. d.of_seats i) a
Archive-Step {h} old (removes i k m w p on) a =
    let o = find_index (sits (user_at h.users k).id) h.seats in
    kept old h (record (evict o h) { users = activated (evict o h).users k (pos 0) })
      (messages-evict o h) (λ d. Ids-activated (evict o h) k (pos 0) (Ids-evict o h d)) a
Archive-Step {h} old (restores i k m w off) a =
    kept old h (record h { users = activated h.users k (pos 1) }) refl (Ids-activated h k (pos 1)) a

pub Archive-Steps :
    {h g : Hall} (old : List HistoryMessage) → Steps h g → Archive old h → Archive old g
Archive-Steps old still a = a
Archive-Steps old (more b c) a = Archive-Step old c (Archive-Steps old b a)
