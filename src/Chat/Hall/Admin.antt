-- ===== src/Chat/Hall/Admin.antt =====
-- chat/server.c: what the administrator's page does to the hall.
use mathlib.Core.Option.{none-ne-some}
use linux_network_lab.Base.{
  ℕ, zero, suc, ◌<◌, ◌≤◌, ◌≡◌, refl, sym, ap, subst, ◌∙◌, Bool, true, false, ◌&&◌, inl, inr, List,
  Option, none, some, length, get_or, ltb, ℤ, pos, negsuc, Bool-cases, ◌==◌, ◌==s◌, Hit,
  find_index-Hit, some-inj, arith,
}
use linux_network_lab.Chat.Users.{truthy, user_at}
use linux_network_lab.Chat.State.{
  max_clients, mode_menu, mode_admin, Client, free_client, Chat, Answers, client_at, has_user,
  find_client_by_user_id, disconnect_client,
}
use linux_network_lab.Chat.Commands.{entry_number, key_q}
use linux_network_lab.Chat.Admin.{
  set_active, put_out, remove_user, restore_user, admin_command, apply_command, select_user, obey,
  process_admin,
}
use linux_network_lab.Chat.Hall.{
  Hall, hall, evict, with_active, removes, restores, returns_from_admin, Steps, still,
}
use linux_network_lab.Chat.Hall.Frame.{
  hall-show_admin_page, hall-set_client, hall-save, clients-save, mode-hall, find_index-map, arrive,
  step_to,
}
use linux_network_lab.Chat.Hall.Menu.{hall-leave_page}

hall-set_active :
    (io : Answers) (k : ℕ) (active : ℤ) (s : Chat)
    → hall (set_active io k active s) ≡ with_active k active (hall s)
unfolding set_active
hall-set_active io k active s = hall-save io _

record Found (cs : List Client) (j : ℕ) : Type 0 where
  pub within : j < length cs
  pub active : (get_or cs j free_client).active ≡ true

first_of : (a b : Bool) → a && b ≡ true → a ≡ true
first_of true b e = refl
first_of false b e = e

find_client-Found :
    (cs : List Client) (id : ℤ) (j : ℕ) → find_client_by_user_id cs id ≡ some j → Found cs j
unfolding find_client_by_user_id
find_client-Found cs id j e =
    let f : Hit (has_user id) cs free_client j = find_index-Hit (has_user id) cs free_client j e in
    record { within = f.within; active = first_of _ _ f.passes }

hall-put_out :
    (s : Chat) (id : ℤ) (o : Option ℕ)
    → length s.clients ≤ max_clients
    → find_client_by_user_id s.clients id ≡ o
    → hall (put_out o s) ≡ evict o (hall s)
unfolding put_out disconnect_client
hall-put_out s id none room e = refl
hall-put_out s id (some j) room e =
    let f = find_client-Found s.clients id j e in
    let inside : ltb j max_clients ≡ true = ground (arith, f.within, room) in
    rw (inside, f.active, disconnect_client) (hall-set_client j free_client s)

evict-with_active :
    (o : Option ℕ) (k : ℕ) (active : ℤ) (h : Hall)
    → evict o (with_active k active h) ≡ with_active k active (evict o h)
evict-with_active none k active h = refl
evict-with_active (some j) k active h = refl

clients-set_active :
    (io : Answers) (k : ℕ) (active : ℤ) (s : Chat) → (set_active io k active s).clients ≡ s.clients
unfolding set_active
clients-set_active io k active s = clients-save io _

hall-remove_user :
    (io : Answers) (i k : ℕ) (s : Chat)
    → length s.clients ≤ max_clients
    → (client_at s i).mode ≡ mode_admin
    → k < length s.users
    → Steps (hall s) (hall (remove_user io i k s))
unfolding remove_user
hall-remove_user io i k s room m within =
    let u = user_at s.users k in
    let s' = set_active io k (pos 0) s in
    elim (Bool-cases (truthy u.is_admin)) [
      | inl admin ↦ rw (admin, remove_user) still
      | inr plain ↦ elim (Bool-cases (truthy u.active)) [
        | inr gone ↦ rw (plain, gone, remove_user) still
        | inl active ↦
            rw (plain, active, remove_user)
              (arrive (step_to (removes i k (mode-hall i mode_admin s m) within plain active)) (
                sym (
                  hall-show_admin_page i _
                  ∙ hall-put_out s' u.id (find_client_by_user_id s'.clients u.id)
                      (subst (λ cs. length cs ≤ max_clients)
                        (sym (clients-set_active io k (pos 0) s)) room)
                      refl
                  ∙ ap (evict (find_client_by_user_id s'.clients u.id))
                      (hall-set_active io k (pos 0) s)
                  ∙ evict-with_active (find_client_by_user_id s'.clients u.id) k (pos 0) (hall s)
                  ∙ ap (λ o. with_active k (pos 0) (evict o (hall s)))
                      (ap (λ cs. find_client_by_user_id cs u.id) (clients-set_active io k (pos 0) s)
                        ∙ sym (find_index-map u.id s.clients)))))
      ]
    ]

hall-restore_user :
    (io : Answers) (i k : ℕ) (s : Chat)
    → (client_at s i).mode ≡ mode_admin
    → k < length s.users
    → Steps (hall s) (hall (restore_user io i k s))
unfolding restore_user
hall-restore_user io i k s m within = elim (Bool-cases (truthy (user_at s.users k).active)) [
  | inl active ↦ rw (active, restore_user) still
  | inr gone ↦
      rw (gone, restore_user)
        (arrive (step_to (restores i k (mode-hall i mode_admin s m) within gone))
          (sym (hall-show_admin_page i _ ∙ hall-set_active io k (pos 1) s)))
]

hall-apply_command :
    (io : Answers) (i command k : ℕ) (s : Chat)
    → length s.clients ≤ max_clients
    → (client_at s i).mode ≡ mode_admin
    → k < length s.users
    → Steps (hall s) (hall (apply_command io i command k s))
unfolding apply_command
hall-apply_command io i command k s room m within = elim (Bool-cases (command == 100)) [
  | inl d ↦ rw (d, apply_command) (hall-remove_user io i k s room m within)
  | inr not_d ↦ elim (Bool-cases (command == 114)) [
    | inl r ↦ rw (not_d, r, apply_command) (hall-restore_user io i k s m within)
    | inr other ↦ rw (not_d, other, apply_command) still
  ]
]

entry_number_within : (count : ℕ) (z : ℤ) (k : ℕ) → entry_number count z ≡ some k → k < count
entry_number_within count (pos zero) k e = absurd (none-ne-some k e)
entry_number_within count (negsuc n) k e = absurd (none-ne-some k e)
entry_number_within count (pos (suc n)) k e = elim (Bool-cases (ltb n count)) [
  | inl inside ↦ subst (λ x. x < count) (some-inj (rw inside at e)) (ground arith)
  | inr outside ↦ absurd (none-ne-some k (rw outside at e))
]

hall-select_user :
    (io : Answers) (i command : ℕ) (o : Option ℕ) (s : Chat)
    → length s.clients ≤ max_clients
    → (client_at s i).mode ≡ mode_admin
    → ((k : ℕ) → o ≡ some k → k < length s.users)
    → Steps (hall s) (hall (select_user io i command o s))
unfolding select_user
hall-select_user io i command none s room m within = still
hall-select_user io i command (some k) s room m within =
    hall-apply_command io i command k s room m (within k refl)

hall-obey :
    (io : Answers) (i : ℕ) (o : Option (ℕ × ℤ)) (s : Chat)
    → length s.clients ≤ max_clients
    → (client_at s i).mode ≡ mode_admin
    → Steps (hall s) (hall (obey io i o s))
unfolding obey
hall-obey io i none s room m = still
hall-obey io i (some (command, selection)) s room m =
    hall-select_user io i command (entry_number (length s.users) selection) s room m
      (entry_number_within (length s.users) selection)

pub hall-process_admin :
    (io : Answers) (i : ℕ) (line : List ℕ) (s : Chat)
    → length s.clients ≤ max_clients
    → (client_at s i).mode ≡ mode_admin
    → Steps (hall s) (hall (process_admin io i line s).1)
unfolding process_admin
hall-process_admin io i line s room m = elim (Bool-cases (line ==s key_q)) [
  | inl q ↦
      rw (q, process_admin)
        (arrive (step_to (returns_from_admin i (mode-hall i mode_admin s m))) (
          sym
            (hall-leave_page io i mode_menu (record (client_at s i) { mode = mode_menu }) s refl)))
  | inr other ↦ rw (other, process_admin) (hall-obey io i (admin_command line) s room m)
]
