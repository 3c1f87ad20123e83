-- ===== src/Chat/Hall/Table.antt =====
-- chat/server.c: the table of users when an account is added, removed or restored.
use linux_network_lab.Base.{
  ℕ, zero, suc, ◌<◌, ◌≡◌, refl, sym, ap, ◌∙◌, Bool, true, false, inl, inr, List, [], ◌∷◌, ◌++◌,
  none, some, length, set, find_index, Hit, find_index-Hit, ℤ, ◌==ℤ◌, Bool-cases, Option-cases,
  arith,
}
use mathlib.Core.Bool.{false≢true}
use mathlib.Core.Option
use linux_network_lab.Chat.Users.{User, zero_user, truthy, user_at, find_user_index_by_id}
use linux_network_lab.Chat.Pages.{is_admin_id}

abbrev pub activated : List User → ℕ → ℤ → List User
activated users k active = set users k (record (user_at users k) { active = active })

-- A field beside `active` stays as it is.
pub field_kept :
    {B : Type 0} (f : User → B)
    → ((u : User) (a : ℤ) → f (record u { active = a }) ≡ f u)
    → (users : List User) (k j : ℕ) (a : ℤ)
    → f (user_at (activated users k a) j) ≡ f (user_at users j)
field_kept f same [] k j a = refl
field_kept f same (u ∷ users) zero zero a = same u a
field_kept f same (u ∷ users) zero (suc j) a = refl
field_kept f same (u ∷ users) (suc k) zero a = refl
field_kept f same (u ∷ users) (suc k) (suc j) a = field_kept f same users k j a

pub id_kept :
    (users : List User) (k j : ℕ) (a : ℤ)
    → (user_at (activated users k a) j).id ≡ (user_at users j).id
id_kept = field_kept (λ u. u.id) (λ u a. refl)

pub name_kept :
    (users : List User) (k j : ℕ) (a : ℤ)
    → (user_at (activated users k a) j).username ≡ (user_at users j).username
name_kept = field_kept (λ u. u.username) (λ u a. refl)

pub admin_kept :
    (users : List User) (k j : ℕ) (a : ℤ)
    → (user_at (activated users k a) j).is_admin ≡ (user_at users j).is_admin
admin_kept = field_kept (λ u. u.is_admin) (λ u a. refl)

pub user_at-append :
    (users more : List User) (k : ℕ)
    → k < length users
    → user_at (users ++ more) k ≡ user_at users k
user_at-append [] more k h = elim h [ ]
user_at-append (u ∷ users) more zero h = refl
user_at-append (u ∷ users) more (suc k) h = user_at-append users more k (omega arith)

pub user_at-last : (users : List User) (u : User) → user_at (users ++ u ∷ []) (length users) ≡ u
user_at-last [] u = refl
user_at-last (v ∷ users) u = user_at-last users u

find_index-append :
    (p : User → Bool) (users more : List User) (k : ℕ)
    → find_index p users ≡ some k
    → find_index p (users ++ more) ≡ some k
unfolding find_index
find_index-append p [] more k e = absurd (Option.none-ne-some k e)
find_index-append p (u ∷ users) more k e = elim (Bool-cases (p u)) [
  | inl hit ↦ rw hit (rw hit at e)
  | inr miss ↦ elim (Option-cases (find_index p users)) [
    | inl nowhere ↦ absurd (Option.none-ne-some k (rw (miss, nowhere) at e))
    | inr (j, there) ↦ rw (miss, find_index-append p users more j there) (rw (miss, there) at e)
  ]
]

find_index-activated :
    (p : User → Bool)
    → ((u : User) (a : ℤ) → p (record u { active = a }) ≡ p u)
    → (users : List User) (k : ℕ) (a : ℤ) → find_index p (activated users k a) ≡ find_index p users
unfolding find_index
find_index-activated p same [] k a = refl
find_index-activated p same (u ∷ users) zero a = rw (same u a) refl
find_index-activated p same (u ∷ users) (suc k) a = rw (find_index-activated p same users k a) refl

is_admin_found :
    (users : List User) (id : ℤ) (k : ℕ)
    → find_user_index_by_id users id ≡ some k
    → is_admin_id users id ≡ truthy (user_at users k).is_admin
is_admin_found users id k e = rw (e, is_admin_id) refl

is_admin_missing :
    (users : List User) (id : ℤ)
    → find_user_index_by_id users id ≡ none
    → is_admin_id users id ≡ false
is_admin_missing users id e = rw (e, is_admin_id) refl

-- An administrator stays one.
pub is_admin-append :
    (users more : List User) (id : ℤ)
    → is_admin_id users id ≡ true
    → is_admin_id (users ++ more) id ≡ true
unfolding find_user_index_by_id
is_admin-append users more id e = elim (Option-cases (find_user_index_by_id users id)) [
  | inl nowhere ↦ absurd (false≢true (sym (is_admin_missing users id nowhere) ∙ e))
  | inr (k, there) ↦
      let f : Hit (λ u. u.id ==ℤ id) users zero_user k =
        find_index-Hit (λ u. u.id ==ℤ id) users zero_user k there in
      is_admin_found (users ++ more) id k (find_index-append (λ u. u.id ==ℤ id) users more k there)
      ∙ ap (λ u. truthy u.is_admin) (user_at-append users more k f.within)
      ∙ sym (is_admin_found users id k there)
      ∙ e
]

pub is_admin-activated :
    (users : List User) (k : ℕ) (a id : ℤ)
    → is_admin_id (activated users k a) id ≡ is_admin_id users id
unfolding find_user_index_by_id
is_admin-activated users k a id =
    let same = find_index-activated (λ u. u.id ==ℤ id) (λ u b. refl) users k a in
    elim (Option-cases (find_user_index_by_id users id)) [
      | inl nowhere ↦
          is_admin_missing (activated users k a) id (same ∙ nowhere)
          ∙ sym (is_admin_missing users id nowhere)
      | inr (j, there) ↦
          is_admin_found (activated users k a) id j (same ∙ there)
          ∙ ap truthy (admin_kept users k j a)
          ∙ sym (is_admin_found users id j there)
    ]
