-- ===== src/Chat/Hall/Sessions.antt =====
-- chat/server.c: one session per account, and only of accounts that are active.
use linux_network_lab.Base.{
  ℕ, zero, suc, ◌<◌, ◌≤◌, ◌≡◌, refl, sym, ap, subst, ◌∙◌, true, false, inl, inr, List, [], ◌∷◌,
  none, length, length-append, set, get_or, find_index, find_index-none, ℤ, pos, ==ℤ_iff, ltb,
  Bool-cases, arith,
}
use mathlib.Core.Bool.{false≢true}
use linux_network_lab.Chat.Users.{
  max_users, User, truthy, user_at, find_user_index_by_name, add_user,
}
use linux_network_lab.Chat.Hall.{Seat, Hall, free_seat, seat_at, put, sits, session}
use linux_network_lab.Chat.Hall.Table.{user_at-append, user_at-last}
use linux_network_lab.Chat.Hall.Numbers.{newest, add_user-newest, newest_is_new}
use linux_network_lab.Chat.Hall.Accounts.{Accounts, Accounts-add_user}
use linux_network_lab.Chat.Hall.Seats.{seat_at-put}

-- There is an active account with that id.
pub record Holds (users : List User) (id : ℤ) : Type 0 where
  pub place : ℕ
  pub within : place < length users
  pub has_id : (user_at users place).id ≡ id
  pub active : truthy (user_at users place).active ≡ true

pub record Sessions (h : Hall) : Type 0 where
  pub accounts : Accounts h.users
  pub held : (i : ℕ) (id : ℤ) → sits id (seat_at h i) ≡ true → Holds h.users id
  pub alone :
      (i j : ℕ) (id : ℤ) → sits id (seat_at h i) ≡ true → sits id (seat_at h j) ≡ true → i ≡ j

abbrev pub Nobody : ℤ → Hall → Type 0
Nobody id h = (j : ℕ) → sits id (seat_at h j) ≡ false

-- Sessions that are left stay as they were.
fewer :
    (h : Hall) (seats : List Seat)
    → ((j : ℕ) (id : ℤ) → sits id (get_or seats j free_seat) ≡ true → sits id (seat_at h j) ≡ true)
    → Sessions h
    → Sessions (record h { seats = seats })
fewer h seats sub s = record {
  accounts = s.accounts;
  held = λ i id e. s.held i id (sub i id e);
  alone = λ i j id e f. s.alone i j id (sub i id e) (sub j id f);
}

-- A seat with no session, or with the one it had.
pub put_fewer :
    (h : Hall) (i : ℕ) (x : Seat)
    → ((id : ℤ) → sits id x ≡ true → sits id (seat_at h i) ≡ true)
    → Sessions h
    → Sessions (put i x h)
put_fewer h i x sub s =
    fewer h (set h.seats i x)
      (λ j id e. elim (seat_at-put h.seats i j x) [
        | inl (p, f) ↦
            subst (λ n. sits id (seat_at h n) ≡ true) p (sub id (ap (sits id) (sym f) ∙ e))
        | inr f ↦ ap (sits id) (sym f) ∙ e
      ])
      s

outside : (xs : List Seat) (j : ℕ) → length xs ≤ j → get_or xs j free_seat ≡ free_seat
outside [] j h = refl
outside (x ∷ xs) zero h = absurd (omega arith)
outside (x ∷ xs) (suc j) h = outside xs j (omega arith)

pub Nobody-found : (id : ℤ) (h : Hall) → find_index (sits id) h.seats ≡ none → Nobody id h
Nobody-found id h e j = elim (Bool-cases (ltb j (length h.seats))) [
  | inl inside ↦ find_index-none (sits id) h.seats free_seat j e (ground arith)
  | inr past ↦ ap (sits id) (outside h.seats j (ground arith))
]

session_id : (id id' : ℤ) (x : Seat) → sits id' (session id x) ≡ true → id ≡ id'
session_id id id' x e = (==ℤ_iff id id').0 (ground arith)

pub clash :
    (h : Hall) (id id' : ℤ) (k : ℕ) → Nobody id h → id ≡ id' → ¬ (sits id' (seat_at h k) ≡ true)
clash h id id' k nobody same e =
    false≢true (sym (nobody k) ∙ ap (λ z. sits z (seat_at h k)) same ∙ e)

-- A session begins, of an active account that nobody uses.
pub begins :
    (h : Hall) (i : ℕ) (id : ℤ)
    → Holds h.users id
    → Nobody id h
    → Sessions h
    → Sessions (put i (session id (seat_at h i)) h)
begins h i id holds nobody s =
    let x = session id (seat_at h i) in
    record {
      accounts = s.accounts;
      held = λ j id' e. elim (seat_at-put h.seats i j x) [
        | inl (p, f) ↦
            subst (Holds h.users) (session_id id id' (seat_at h i) (ap (sits id') (sym f) ∙ e))
              holds
        | inr f ↦ s.held j id' (ap (sits id') (sym f) ∙ e)
      ];
      alone = λ j k id' e g. elim (seat_at-put h.seats i j x) [
        | inl (p, f) ↦ elim (seat_at-put h.seats i k x) [
          | inl (p', f') ↦ sym p ∙ p'
          | inr f' ↦
              let same = session_id id id' (seat_at h i) (ap (sits id') (sym f) ∙ e) in
              absurd (clash h id id' k nobody same (ap (sits id') (sym f') ∙ g))
        ]
        | inr f ↦ elim (seat_at-put h.seats i k x) [
          | inl (p', f') ↦
              let same = session_id id id' (seat_at h i) (ap (sits id') (sym f') ∙ g) in
              absurd (clash h id id' j nobody same (ap (sits id') (sym f) ∙ e))
          | inr f' ↦ s.alone j k id' (ap (sits id') (sym f) ∙ e) (ap (sits id') (sym f') ∙ g)
        ]
      ];
    }

pub Sessions-add_user :
    (name : List ℕ) (h : Hall)
    → find_user_index_by_name h.users name ≡ none
    → length h.users < max_users
    → Sessions h
    → Sessions (record h { users = add_user name (pos 0) h.users })
Sessions-add_user name h fresh room s =
    let u = newest name h.users in
    record {
      accounts = Accounts-add_user name h.users fresh room s.accounts;
      held = λ i id e.
          let o = s.held i id e in
          subst (λ us. Holds us id) (sym (add_user-newest name h.users))
            (record {
              place = o.place;
              within = omega (arith, o.within, length-append h.users (u ∷ []));
              has_id = ap (λ v. v.id) (user_at-append h.users (u ∷ []) o.place o.within) ∙ o.has_id;
              active =
                  ap (λ v. truthy v.active) (user_at-append h.users (u ∷ []) o.place o.within)
                  ∙ o.active;
            });
      alone = s.alone;
    }

pub newest-Holds :
    (name : List ℕ) (users : List User) → Holds (add_user name (pos 0) users) (newest name users).id
unfolding add_user
newest-Holds name users = record {
  place = length users;
  within = omega (
    arith,
    length-append users (user_at (add_user name (pos 0) users) (length users) ∷ []),
    length-append users (newest name users ∷ []),
    ap length (add_user-newest name users),
  );
  has_id = refl;
  active = ap (λ v. truthy v.active) (user_at-last users _);
}

-- Nobody has used an id that is new.
pub newest-Nobody :
    (name : List ℕ) (h : Hall)
    → length h.users < max_users
    → Sessions h
    → Nobody (newest name h.users).id h
newest-Nobody name h room s j = elim (Bool-cases (sits (newest name h.users).id (seat_at h j))) [
  | inr free ↦ free
  | inl used ↦
      let o = s.held j (newest name h.users).id used in
      absurd (newest_is_new name h.users s.accounts.numbers room o.place o.within o.has_id)
]
