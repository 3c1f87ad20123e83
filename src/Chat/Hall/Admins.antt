-- ===== src/Chat/Hall/Admins.antt =====
-- chat/server.c: no administrator is locked out, through every step of the abstract server.
use linux_network_lab.Base.{
  ℕ, ◌<◌, ◌≡◌, refl, sym, ap, subst, ◌∙◌, true, false, inl, inr, List, [], ◌∷◌, Option, length,
  length-set, length-append, find_index, ℤ, pos, arith,
}
use mathlib.Core.Bool.{false≢true}
use linux_network_lab.Chat.Users.{User, truthy, user_at, add_user}
use linux_network_lab.Chat.Hall.{
  Hall, sits, evict, Step, comes, leaves, logs_in, sends, registers, enters, reads,
  returns_from_chat, returns_from_admin, rules, removes, restores, Steps, still, more,
}
use linux_network_lab.Chat.Hall.Table.{activated, admin_kept, user_at-append}
use linux_network_lab.Chat.Hall.Numbers.{newest, add_user-newest}
use linux_network_lab.Chat.Hall.Ledger.{users-evict}
use linux_network_lab.Chat.Hall.Removal.{user_at-activated}

-- The account at `k` is an administrator's, and active.
pub record Rules (k : ℕ) (users : List User) : Type 0 where
  pub within : k < length users
  pub admin : truthy (user_at users k).is_admin ≡ true
  pub active : truthy (user_at users k).active ≡ true

Rules-add_user :
    (name : List ℕ) (k : ℕ) (users : List User)
    → Rules k users
    → Rules k (add_user name (pos 0) users)
Rules-add_user name k users r =
    let u = newest name users in
    let same : user_at (add_user name (pos 0) users) k ≡ user_at users k =
      ap (λ us. user_at us k) (add_user-newest name users)
      ∙ user_at-append users (u ∷ []) k r.within in
    record {
      within =
          subst (λ us. k < length us) (sym (add_user-newest name users))
            (omega (arith, r.within, length-append users (u ∷ [])));
      admin = ap (λ v. truthy v.is_admin) same ∙ r.admin;
      active = ap (λ v. truthy v.active) same ∙ r.active;
    }

-- Only the account of somebody else is removed.
Rules-activated :
    (k j : ℕ) (a : ℤ) (users : List User)
    → (k ≡ j → truthy a ≡ true)
    → Rules j users
    → Rules j (activated users k a)
Rules-activated k j a users why r = record {
  within = omega (arith, r.within, length-set users k (record (user_at users k) { active = a }));
  admin = ap truthy (admin_kept users k j a) ∙ r.admin;
  active = elim (user_at-activated users k j a r.within) [
    | inl (p, now) ↦ ap truthy now ∙ why p
    | inr (n, same) ↦ ap (λ u. truthy u.active) same ∙ r.active
  ];
}

Rules-removal :
    (o : Option ℕ) (k j : ℕ) (h : Hall)
    → truthy (user_at h.users k).is_admin ≡ false
    → Rules j h.users
    → Rules j (activated (evict o h).users k (pos 0))
Rules-removal o k j h plain r =
    let other : k ≡ j → truthy (pos 0) ≡ true = λ e.
      absurd (false≢true (sym plain ∙ ap (λ n. truthy (user_at h.users n).is_admin) e ∙ r.admin)) in
    subst (λ us. Rules j (activated us k (pos 0))) (sym (users-evict o h))
      (Rules-activated k j (pos 0) h.users other r)

Rules-Step : {h g : Hall} (j : ℕ) → Step h g → Rules j h.users → Rules j g.users
Rules-Step j (comes i w0 f0) r = r
Rules-Step j (leaves i) r = r
Rules-Step j (logs_in i k l w e n) r = r
Rules-Step {h} j (registers name f m) r = Rules-add_user name j h.users r
Rules-Step {h} j (enters i name l f m) r = Rules-add_user name j h.users r
Rules-Step j (reads i m) r = r
Rules-Step j (returns_from_chat i m) r = r
Rules-Step j (returns_from_admin i m) r = r
Rules-Step j (sends i k now text m w on clean) r = r
Rules-Step j (rules i m a) r = r
Rules-Step {h} j (removes i k m w p on) r =
    Rules-removal (find_index (sits (user_at h.users k).id) h.seats) k j h p r
Rules-Step {h} j (restores i k m w off) r = Rules-activated k j (pos 1) h.users (λ e. refl) r

pub Rules-Steps : {h g : Hall} (j : ℕ) → Steps h g → Rules j h.users → Rules j g.users
Rules-Steps j still r = r
Rules-Steps j (more b c) r = Rules-Step j c (Rules-Steps j b r)
