-- ===== src/Chat/Hall/Always.antt =====
-- chat/server.c: from `load_users` on there is an administrator.
use mathlib.Core.Option.{none-ne-some}
use linux_network_lab.Base.{
  ℕ, ◌<◌, ◌≡◌, refl, ap, subst, ◌∙◌, true, inl, inr, List, [], ◌∷◌, ◌++◌, some, some-inj, length,
  length-append, length-set, set, get_or-set_self, find_index-Hit, ltb, ◌==s◌, pos, Bool-cases,
  Option-cases, arith,
}
use linux_network_lab.Chat.Files.{read_lines}
use linux_network_lab.Chat.Users.{
  max_users, User, zero_user, truthy, user_at, find_user_index_by_name, add_user,
}
use linux_network_lab.Chat.Users.Db.{
  SaveAnswers, ahmet, ensure_admin, load_lines, load_users, save_users,
}
use linux_network_lab.Chat.State.{Answers}
use linux_network_lab.Chat.Events.{Event, run, start}
use linux_network_lab.Chat.Hall.Table.{user_at-last}
use linux_network_lab.Chat.Hall.Admins.{Rules}
use linux_network_lab.Chat.Hall.Reach.{run-Rules}

-- Some account is an active administrator's.
abbrev pub HasRuler : List User → Type 0
HasRuler users = (k : ℕ) × Rules k users

appended-HasRuler :
    (users : List User) (u : User)
    → truthy u.is_admin ≡ true
    → truthy u.active ≡ true
    → HasRuler (users ++ u ∷ [])
appended-HasRuler users u admin active = (
  length users,
  record {
    within = omega (arith, length-append users (u ∷ []));
    admin = ap (λ v. truthy v.is_admin) (user_at-last users u) ∙ admin;
    active = ap (λ v. truthy v.active) (user_at-last users u) ∙ active;
  },
)

added-HasRuler : (users : List User) → HasRuler (add_user ahmet (pos 1) users)
unfolding add_user
added-HasRuler users = appended-HasRuler users _ refl refl

raised-HasRuler :
    (users : List User) (k : ℕ)
    → k < length users
    → HasRuler (set users k (record (user_at users k) { active = pos 1; is_admin = pos 1 }))
raised-HasRuler users k within =
    let u : User = record (user_at users k) { active = pos 1; is_admin = pos 1 } in
    let same = get_or-set_self users k u zero_user within in
    (
      k,
      record {
        within = omega (arith, within, length-set users k u);
        admin = ap (λ v. truthy v.is_admin) same;
        active = ap (λ v. truthy v.active) same;
      },
    )

name_within :
    (users : List User) (name : List ℕ) (k : ℕ)
    → find_user_index_by_name users name ≡ some k
    → k < length users
unfolding find_user_index_by_name
name_within users name k e = (find_index-Hit (λ u. u.username ==s name) users zero_user k e).within

ensure_admin-HasRuler :
    (users loaded : List User) → ensure_admin users ≡ some loaded → HasRuler loaded
unfolding ensure_admin
ensure_admin-HasRuler users loaded e = elim (Option-cases (find_user_index_by_name users ahmet)) [
  | inl nowhere ↦ elim (Bool-cases (ltb (length users) max_users)) [
    | inl room ↦
        subst HasRuler (some-inj (rw (nowhere, room, ensure_admin) at e)) (added-HasRuler users)
    | inr full ↦ absurd (none-ne-some loaded (rw (nowhere, full, ensure_admin) at e))
  ]
  | inr (k, there) ↦
      subst HasRuler (some-inj (rw (there, ensure_admin) at e))
        (raised-HasRuler users k (name_within users ahmet k there))
]

load_users-HasRuler :
    (io : SaveAnswers) (bytes : List ℕ) (users : List User) (saved : List ℕ)
    → load_users io bytes ≡ some (users, saved)
    → HasRuler users
unfolding load_users
load_users-HasRuler io bytes users saved e =
    let table = load_lines [] (read_lines 256 bytes) in
    elim (Option-cases (ensure_admin table)) [
      | inl full ↦ absurd (none-ne-some (users, saved) (rw (full, load_users) at e))
      | inr (loaded, ready) ↦ elim (Option-cases (save_users io loaded)) [
        | inl failed ↦ absurd (none-ne-some (users, saved) (rw (ready, failed, load_users) at e))
        | inr (text, good) ↦
            subst HasRuler (ap (λ p. p.0) (some-inj (rw (ready, good, load_users) at e)))
              (ensure_admin-HasRuler table loaded ready)
      ]
    ]

-- If `load_users` loads a table, whatever stands in `users.db`, then after any events some account
-- is an administrator's and active.
pub run-HasRuler :
    (io : ℕ → Answers) (es : List Event) (saving : SaveAnswers) (bytes saved messages_db : List ℕ)
    (users : List User)
    → load_users saving bytes ≡ some (users, saved)
    → HasRuler (run io es (start users saved messages_db)).chat.users
run-HasRuler io es saving bytes saved messages_db users loaded =
    let (k, r) = load_users-HasRuler saving bytes users saved loaded in
    (k, run-Rules users saved messages_db io es k r)
