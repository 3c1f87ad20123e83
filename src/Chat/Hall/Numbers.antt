-- ===== src/Chat/Hall/Numbers.antt =====
-- chat/server.c: the ids that new users get.
use linux_network_lab.Base.{
  ℕ, zero, suc, ◌+◌, ◌^◌, ◌<◌, ◌≤◌, ◌≡◌, ◌≢◌, refl, sym, ap, subst, ◌∙◌, true, List, [], ◌∷◌, ◌++◌,
  length, length-append, length-set, ltb, ℤ, pos, negsuc, arith,
}
use linux_network_lab.Chat.Users.{
  max_users, User, zero_user, user_at, larger_id, max_user_id_from, get_max_user_id, next_int,
  add_user,
}
use linux_network_lab.Chat.Hall.Table.{activated, user_at-last}

-- All ids that are still to be given out are `int`s: each new account takes the next one.
abbrev pub HasNumbers : List User → Type 0
HasNumbers users = get_max_user_id users + max_users < 2 ^ 31 + length users

max-append :
    (m : ℕ) (users : List User) (u : User)
    → max_user_id_from m (users ++ u ∷ []) ≡ larger_id (max_user_id_from m users) u.id
unfolding max_user_id_from
max-append m [] u = refl
max-append m (v ∷ users) u = max-append (larger_id m v.id) users u

larger_id_at_least : (m : ℕ) (id : ℤ) → m ≤ larger_id m id
larger_id_at_least m (pos n) = ground arith
larger_id_at_least m (negsuc n) = omega arith

number_of : (k n : ℕ) → pos k ≡ pos n → k ≡ n
number_of k n e = ap (λ z. elim z [ pos m ↦ m | negsuc m ↦ 0 ]) e

larger_id_next : (m : ℕ) → larger_id m (pos (suc m)) ≡ suc m
larger_id_next m = ground arith

larger_id_above : (m n : ℕ) (id : ℤ) → id ≡ pos n → n ≤ larger_id m id
larger_id_above m n (pos k) e = let same : k ≡ n = number_of k n e in ground arith
larger_id_above m n (negsuc k) e = ground arith

max_at_least : (m : ℕ) (users : List User) → m ≤ max_user_id_from m users
unfolding max_user_id_from
max_at_least m [] = omega arith
max_at_least m (u ∷ users) =
    omega (arith, larger_id_at_least m u.id, max_at_least (larger_id m u.id) users)

max_above :
    (m n : ℕ) (users : List User) (k : ℕ)
    → k < length users
    → (user_at users k).id ≡ pos n
    → n ≤ max_user_id_from m users
unfolding max_user_id_from
max_above m n [] k h e = elim h [ ]
max_above m n (u ∷ users) zero h e =
    omega (arith, larger_id_above m n u.id e, max_at_least (larger_id m u.id) users)
max_above m n (u ∷ users) (suc k) h e = max_above (larger_id m u.id) n users k (omega arith) e

max-activated :
    (m : ℕ) (users : List User) (k : ℕ) (a : ℤ)
    → max_user_id_from m (activated users k a) ≡ max_user_id_from m users
unfolding max_user_id_from
max-activated m [] k a = refl
max-activated m (u ∷ users) zero a = refl
max-activated m (u ∷ users) (suc k) a = max-activated (larger_id m u.id) users k a

pub HasNumbers-activated :
    (users : List User) (k : ℕ) (a : ℤ) → HasNumbers users → HasNumbers (activated users k a)
unfolding get_max_user_id
HasNumbers-activated users k a h = omega (
  arith,
  h,
  max-activated 0 users k a,
  length-set users k (record (user_at users k) { active = a }),
)

-- The account that `add_user` appends.
abbrev pub newest : List ℕ → List User → User
newest name users = user_at (add_user name (pos 0) users) (length users)

pub add_user-newest :
    (name : List ℕ) (users : List User)
    → add_user name (pos 0) users ≡ users ++ newest name users ∷ []
unfolding add_user
add_user-newest name users = ap (λ u. users ++ u ∷ []) (sym (user_at-last users _))

pub newest_id :
    (name : List ℕ) (users : List User)
    → HasNumbers users
    → length users < max_users
    → (newest name users).id ≡ pos (suc (get_max_user_id users))
unfolding add_user get_max_user_id
newest_id name users h room =
    let m = max_user_id_from 0 users in
    let zero_counts : max_user_id_from 0 (users ++ zero_user ∷ []) ≡ m =
      max-append 0 users zero_user ∙ ground arith in
    ap (λ u. u.id) (user_at-last users _)
    ∙ ap next_int zero_counts
    ∙ (let small : ltb (suc m) (2 ^ 31) ≡ true = ground (arith, h, room) in rw small refl)

pub newest_is_new :
    (name : List ℕ) (users : List User)
    → HasNumbers users
    → length users < max_users
    → (k : ℕ) → k < length users
    → (user_at users k).id ≢ (newest name users).id
unfolding get_max_user_id
newest_is_new name users h room k within e =
    let above =
      max_above 0 (suc (get_max_user_id users)) users k within (e ∙ newest_id name users h room) in
    omega arith

pub HasNumbers-add_user :
    (name : List ℕ) (users : List User)
    → HasNumbers users
    → length users < max_users
    → HasNumbers (add_user name (pos 0) users)
unfolding get_max_user_id
HasNumbers-add_user name users h room =
    let u = newest name users in
    subst HasNumbers (sym (add_user-newest name users)) (
      omega (
        arith,
        h,
        length-append users (u ∷ []),
        max-append 0 users u,
        ap (larger_id (max_user_id_from 0 users)) (newest_id name users h room),
        larger_id_next (max_user_id_from 0 users),
      ))
