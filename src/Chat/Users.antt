-- ===== src/Chat/Users.antt =====
-- chat/server.c: the table of users. `users` is the first `user_count` entries of the array.
pub mod Db
use linux_network_lab.Base.{
  ℕ, suc, ◌+◌, ◌-◌, ◌%◌, ◌^◌, Bool, true, false, not, List, [], ◌∷◌, ◌++◌, Option, none, some,
  length, take, set, get_or, ltb, if◌then◌else◌, find_index, ℤ, pos, negsuc, ◌==ℤ◌, ◌==s◌,
}

abbrev pub max_users : ℕ
max_users = 1000

abbrev pub username_size : ℕ
username_size = 32

-- `active` and `is_admin` are `int`, as they may stand in the file.
pub record User : Type 0 where
  pub id : ℤ
  pub username : List ℕ
  pub active : ℤ
  pub is_admin : ℤ

-- An `int` as a condition.
abbrev pub truthy : ℤ → Bool
truthy n = not (n ==ℤ pos 0)

-- An entry of the static array that nothing has been written to.
abbrev pub zero_user : User
zero_user = record { id = pos 0; username = []; active = pos 0; is_admin = pos 0 }

abbrev pub user_at : List User → ℕ → User
user_at users i = get_or users i zero_user

unfoldable pub find_user_index_by_id : List User → ℤ → Option ℕ
find_user_index_by_id users id = find_index (λ u. u.id ==ℤ id) users

unfoldable pub find_user_index_by_name : List User → List ℕ → Option ℕ
find_user_index_by_name users name = find_index (λ u. u.username ==s name) users

-- The loop of `get_max_user_id`, with the greatest id so far; it starts at 0, so that negative ids
-- do not count.
abbrev pub larger_id : ℕ → ℤ → ℕ
larger_id max_id (pos n) = if ltb max_id n then n else max_id
larger_id max_id (negsuc n) = max_id

unfoldable pub max_user_id_from : ℕ → List User → ℕ
max_user_id_from max_id [] = max_id
max_user_id_from max_id (u ∷ users) = max_user_id_from (larger_id max_id u.id) users

unfoldable pub get_max_user_id : List User → ℕ
get_max_user_id users = max_user_id_from 0 users

-- `n + 1` as an `int`, which wraps.
abbrev pub next_int : ℕ → ℤ
next_int n = if ltb (suc n) (2 ^ 31) then pos (suc n) else negsuc (2 ^ 32 - suc n - 1)

-- `users[user_count++]` is set up. Its id is computed while the entry counts already, as it was.
unfoldable pub add_user : List ℕ → ℤ → List User → List User
add_user name is_admin users =
    users
    ++ record {
      id = next_int (get_max_user_id (users ++ zero_user ∷ []));
      username = name;
      active = pos 1;
      is_admin = is_admin;
    }
      ∷ []
