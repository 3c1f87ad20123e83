-- ===== src/Chat/Hall/Accounts.antt =====
-- chat/server.c: no two accounts share an id or a name.
use linux_network_lab.Base.{
  ℕ, ◌<◌, ◌≡◌, ◌≢◌, sym, ap, subst, ◌∙◌, inl, inr, List, [], ◌∷◌, ◌++◌, none, length, length-append,
  length-set, find_index-none, ℤ, pos, ◌==s◌, ==s_iff, ltb, Bool-cases, arith,
}
use mathlib.Core.Bool.{false≢true}
use linux_network_lab.Chat.Users.{
  max_users, User, zero_user, user_at, find_user_index_by_name, add_user,
}
use linux_network_lab.Chat.Hall.Table.{activated, id_kept, name_kept, user_at-append, user_at-last}
use linux_network_lab.Chat.Hall.Numbers.{
  HasNumbers, HasNumbers-activated, HasNumbers-add_user, newest, add_user-newest, newest_is_new,
}

abbrev pub Distinct : {B : Type 0} → (User → B) → List User → Type 0
Distinct f users =
    (i j : ℕ)
    → i < length users
    → j < length users
    → f (user_at users i) ≡ f (user_at users j)
    → i ≡ j

-- No two accounts share an id or a name, and no id will wrap.
pub record Accounts (users : List User) : Type 0 where
  pub numbers : HasNumbers users
  pub ids : Distinct (λ u. u.id) users
  pub names : Distinct (λ u. u.username) users

Distinct-append :
    {B : Type 0} (f : User → B) (users : List User) (u : User)
    → ((k : ℕ) → k < length users → f (user_at users k) ≢ f u)
    → Distinct f users
    → Distinct f (users ++ u ∷ [])
Distinct-append f users u fresh d i j li lj e = elim (Bool-cases (ltb i (length users))) [
  | inl old_i ↦
      let li' : i < length users = ground arith in
      elim (Bool-cases (ltb j (length users))) [
        | inl old_j ↦
            let lj' : j < length users = ground arith in
            d i j li' lj' (
              sym (ap f (user_at-append users (u ∷ []) i li'))
              ∙ e
              ∙ ap f (user_at-append users (u ∷ []) j lj'))
        | inr new_j ↦
            let last : j ≡ length users = ground (arith, lj, length-append users (u ∷ [])) in
            absurd (
              fresh i li' (
                sym (ap f (user_at-append users (u ∷ []) i li'))
                ∙ e
                ∙ ap (λ k. f (user_at (users ++ u ∷ []) k)) last
                ∙ ap f (user_at-last users u)))
      ]
  | inr new_i ↦
      let last_i : i ≡ length users = ground (arith, li, length-append users (u ∷ [])) in
      elim (Bool-cases (ltb j (length users))) [
        | inl old_j ↦
            let lj' : j < length users = ground arith in
            absurd (
              fresh j lj' (
                sym (ap f (user_at-append users (u ∷ []) j lj'))
                ∙ sym e
                ∙ ap (λ k. f (user_at (users ++ u ∷ []) k)) last_i
                ∙ ap f (user_at-last users u)))
        | inr new_j ↦ ground (arith, li, lj, length-append users (u ∷ []))
      ]
]

newest_name : (name : List ℕ) (users : List User) → (newest name users).username ≡ name
unfolding add_user
newest_name name users = ap (λ u. u.username) (user_at-last users _)

pub Accounts-add_user :
    (name : List ℕ) (users : List User)
    → find_user_index_by_name users name ≡ none
    → length users < max_users
    → Accounts users
    → Accounts (add_user name (pos 0) users)
unfolding find_user_index_by_name
Accounts-add_user name users fresh room a =
    let back = sym (add_user-newest name users) in
    record {
      numbers = HasNumbers-add_user name users a.numbers room;
      ids = subst (Distinct (λ u. u.id)) back (
          Distinct-append (λ u. u.id) users (newest name users)
            (newest_is_new name users a.numbers room) a.ids);
      names = subst (Distinct (λ u. u.username)) back (
          Distinct-append (λ u. u.username) users (newest name users)
            (λ k within e. absurd (
              false≢true (
                sym (find_index-none (λ u. u.username ==s name) users zero_user k fresh within)
                ∙ (==s_iff (user_at users k).username name).1 (e ∙ newest_name name users))))
            a.names);
    }

pub Accounts-activated :
    (users : List User) (k : ℕ) (active : ℤ) → Accounts users → Accounts (activated users k active)
Accounts-activated users k active a =
    let u = record (user_at users k) { active = active } in
    record {
      numbers = HasNumbers-activated users k active a.numbers;
      ids = λ i j li lj e.
          a.ids i j (omega (arith, li, length-set users k u))
            (omega (arith, lj, length-set users k u))
            (sym (id_kept users k i active) ∙ e ∙ id_kept users k j active);
      names = λ i j li lj e.
          a.names i j (omega (arith, li, length-set users k u))
            (omega (arith, lj, length-set users k u))
            (sym (name_kept users k i active) ∙ e ∙ name_kept users k j active);
    }
