-- ===== src/Chat/Users/Db/Reload.antt =====
-- chat/server.c: a table that was saved is loaded unchanged.
use linux_network_lab.Base.{
  ℕ, zero, suc, ◌≤◌, ◌≡◌, refl, sym, ap, ◌∙◌, true, List, [], ◌∷◌, some, arith, length, All, map,
  set, pos,
}
use linux_network_lab.Chat.Users.{max_users, User, user_at, find_user_index_by_name}
use linux_network_lab.Chat.Users.Db.{
  SaveAnswers, print_user, print_users, save_users, ahmet, ensure_admin, load_users, load_lines,
}
use linux_network_lab.Chat.Users.Db.RoundTrip.{
  IsStorable, read_lines-print_users, load_lines-print_user,
}

-- The account ahmet stands in the table, active and an admin.
pub record HasAdmin (users : List User) : Type 0 where
  pub place : ℕ
  pub found : find_user_index_by_name users ahmet ≡ some place
  pub is_active : (user_at users place).active ≡ pos 1
  pub admin : (user_at users place).is_admin ≡ pos 1

set-get_or : (users : List User) (k : ℕ) → set users k (user_at users k) ≡ users
set-get_or [] k = refl
set-get_or (u ∷ users) zero = refl
set-get_or (u ∷ users) (suc k) = ap (◌∷◌ u) (set-get_or users k)

ensure_admin-HasAdmin : (users : List User) → HasAdmin users → ensure_admin users ≡ some users
unfolding ensure_admin
ensure_admin-HasAdmin users a =
    let u = user_at users a.place in
    let same : record u { active = pos 1; is_admin = pos 1 } ≡ u =
      ap (λ x. record u { active = x; is_admin = pos 1 }) (sym a.is_active)
      ∙ ap (λ x. record u { is_admin = x }) (sym a.admin) in
    rw (a.found, ensure_admin)
      (ap (λ v. some (set users a.place v)) same ∙ ap some (set-get_or users a.place))

-- Loading what `save_users` wrote gives the same table and writes the same text again, if the table
-- has at most 1000 users, each of them fits its line, and ahmet is an active admin.
pub load_users-save_users :
    (io : SaveAnswers) (users : List User)
    → io.opened ≡ true
    → io.renamed ≡ true
    → All IsStorable users
    → length users ≤ max_users
    → HasAdmin users
    → (bytes : List ℕ) × (save_users io users ≡ some bytes)
      × (load_users io bytes ≡ some (users, bytes))
unfolding load_users save_users
load_users-save_users io users opened renamed storable room a =
    let table : load_lines [] (map print_user users) ≡ users =
      load_lines-print_user [] users storable (omega (arith, room)) in
    (
      print_users users,
      rw (opened, renamed) refl,
      rw
          (
            read_lines-print_users users storable,
            table,
            ensure_admin-HasAdmin users a,
            opened,
            renamed,
          )
          refl,
    )
