-- ===== src/Chat/Hall/Removal.antt =====
-- chat/server.c: sessions, through every step of the abstract server.
use linux_network_lab.Base.{
  ℕ, ◌<◌, ◌≡◌, ◌≢◌, refl, sym, ap, subst, ◌∙◌, true, inl, inr, ◌⊎◌, List, Option, none, some,
  length, length-set, get_or-set_self, get_or-set_ne, find_index, find_index-Hit, Hit, ℤ, pos, ◌==◌,
  Bool-cases, arith,
}
use mathlib.Core.Bool.{false≢true}
use linux_network_lab.Chat.Users.{User, zero_user, truthy, user_at, add_user}
use linux_network_lab.Chat.Hall.{
  Hall, free_seat, newcomer, seat_at, put, sits, evict, with_active, Step, comes, leaves, logs_in,
  sends, registers, enters, reads, returns_from_chat, returns_from_admin, rules, removes, restores,
  Steps, still, more,
}
use linux_network_lab.Chat.Hall.Table.{activated, id_kept}
use linux_network_lab.Chat.Hall.Numbers.{newest}
use linux_network_lab.Chat.Hall.Accounts.{Accounts-activated}
use linux_network_lab.Chat.Hall.Sessions.{
  Holds, Sessions, Nobody, put_fewer, Nobody-found, clash, begins, Sessions-add_user, newest-Holds,
  newest-Nobody,
}
use linux_network_lab.Chat.Hall.Ledger.{users-evict}
use linux_network_lab.Chat.Hall.Seats.{seat_at-put}

-- The account itself is changed, or another one.
pub user_at-activated :
    (users : List User) (k j : ℕ) (a : ℤ)
    → j < length users
    → ((k ≡ j) × ((user_at (activated users k a) j).active ≡ a))
      ⊎ (k ≢ j × (user_at (activated users k a) j ≡ user_at users j))
user_at-activated users k j a within = elim (Bool-cases (k == j)) [
  | inl same ↦
      let e : k ≡ j = ground arith in
      inl (
        e,
        subst (λ n. (user_at (activated users k a) n).active ≡ a) e
            (ap (λ u. u.active) (get_or-set_self users k _ zero_user (omega arith))),
      )
  | inr other ↦ let n : k ≢ j = ground arith in inr (n, get_or-set_ne users k j _ zero_user n)
]

Sessions-activated :
    (h : Hall) (k : ℕ) (a : ℤ)
    → (truthy a ≡ true) ⊎ Nobody (user_at h.users k).id h
    → Sessions h
    → Sessions (with_active k a h)
Sessions-activated h k a why s = record {
  accounts = Accounts-activated h.users k a s.accounts;
  held = λ i id e.
      let o = s.held i id e in
      record {
        place = o.place;
        within =
            omega
              (arith, o.within, length-set h.users k (record (user_at h.users k) { active = a }));
        has_id = id_kept h.users k o.place a ∙ o.has_id;
        active = elim (user_at-activated h.users k o.place a o.within) [
          | inr (n, same) ↦ ap (λ u. truthy u.active) same ∙ o.active
          | inl (p, now) ↦ ap truthy now ∙ elim why [
            | inl on ↦ on
            | inr nobody ↦ absurd (
                clash h (user_at h.users k).id id i nobody
                  (ap (λ n. (user_at h.users n).id) p ∙ o.has_id) e)
          ]
        ];
      };
  alone = s.alone;
}

Sessions-evict : (o : Option ℕ) (h : Hall) → Sessions h → Sessions (evict o h)
Sessions-evict none h s = s
Sessions-evict (some j) h s = put_fewer h j free_seat (λ id e. absurd (false≢true e)) s

-- The only session of that account is gone.
Nobody-evict :
    (id : ℤ) (h : Hall) (o : Option ℕ)
    → find_index (sits id) h.seats ≡ o
    → Sessions h
    → Nobody id (evict o h)
Nobody-evict id h none e s j = Nobody-found id h e j
Nobody-evict id h (some k) e s j =
    let f : Hit (sits id) h.seats free_seat k = find_index-Hit (sits id) h.seats free_seat k e in
    elim (seat_at-put h.seats k j free_seat) [
      | inl (p, now) ↦ ap (sits id) now
      | inr same ↦ elim (Bool-cases (sits id (seat_at h j))) [
        | inr free ↦ ap (sits id) same ∙ free
        | inl used ↦ ap (sits id) (
            subst (λ n. seat_at (put k free_seat h) n ≡ free_seat) (s.alone k j id f.passes used)
              (get_or-set_self h.seats k free_seat free_seat f.within))
      ]
    ]

Sessions-Step : {h g : Hall} → Step h g → Sessions h → Sessions g
Sessions-Step {h} (comes i w0 f0) s = put_fewer h i newcomer (λ id e. absurd (false≢true e)) s
Sessions-Step {h} (leaves i) s = put_fewer h i free_seat (λ id e. absurd (false≢true e)) s
Sessions-Step {h} (logs_in i k l within active away) s =
    let holds : Holds h.users (user_at h.users k).id = record {
      place = k;
      within = within;
      has_id = refl;
      active = active;
    } in
    begins h i (user_at h.users k).id holds (Nobody-found (user_at h.users k).id h away) s
Sessions-Step {h} (registers name fresh room) s = Sessions-add_user name h fresh room s
Sessions-Step {h} (enters i name l fresh room) s =
    begins (record h { users = add_user name (pos 0) h.users }) i (newest name h.users).id
      (newest-Holds name h.users) (newest-Nobody name h room s)
      (Sessions-add_user name h fresh room s)
Sessions-Step {h} (reads i m) s = put_fewer h i _ (λ id e. e) s
Sessions-Step {h} (returns_from_chat i m) s = put_fewer h i _ (λ id e. e) s
Sessions-Step {h} (returns_from_admin i m) s = put_fewer h i _ (λ id e. e) s
Sessions-Step {h} (sends i k now text m w on clean) s = record {
  accounts = s.accounts;
  held = s.held;
  alone = s.alone;
}
Sessions-Step {h} (rules i m r) s = put_fewer h i _ (λ id e. e) s
Sessions-Step {h} (removes i k m within plain on) s =
    let id = (user_at h.users k).id in
    let o = find_index (sits id) h.seats in
    Sessions-activated (evict o h) k (pos 0)
      (inr (
        subst (λ us. Nobody (user_at us k).id (evict o h)) (sym (users-evict o h))
          (Nobody-evict id h o refl s)))
      (Sessions-evict o h s)
Sessions-Step {h} (restores i k m within off) s = Sessions-activated h k (pos 1) (inl refl) s

pub Sessions-Steps : {h g : Hall} → Steps h g → Sessions h → Sessions g
Sessions-Steps still s = s
Sessions-Steps (more b c) s = Sessions-Step c (Sessions-Steps b s)
