-- ===== src/Chat/Hall/Ledger.antt =====
-- chat/server.c: the accounts, through every step of the abstract server.
use linux_network_lab.Base.{
  ℕ, ◌<◌, ◌≤◌, ◌≡◌, refl, sym, ap, subst, ◌∙◌, List, [], ◌∷◌, Option, none, some, length,
  length-append, length-set, find_index, ℤ, pos, arith,
}
use linux_network_lab.Chat.Users.{User, user_at, add_user}
use linux_network_lab.Chat.Hall.{
  Hall, sits, evict, Step, comes, leaves, logs_in, sends, registers, enters, reads,
  returns_from_chat, returns_from_admin, rules, removes, restores, Steps, still, more,
}
use linux_network_lab.Chat.Hall.Table.{activated, id_kept, name_kept, admin_kept, user_at-append}
use linux_network_lab.Chat.Hall.Accounts.{Accounts, Accounts-add_user, Accounts-activated}
use linux_network_lab.Chat.Hall.Numbers.{newest, add_user-newest}

pub users-evict : (o : Option ℕ) (h : Hall) → (evict o h).users ≡ h.users
users-evict none h = refl
users-evict (some j) h = refl

Accounts-Step : {h g : Hall} → Step h g → Accounts h.users → Accounts g.users
Accounts-Step (comes i w0 f0) a = a
Accounts-Step (leaves i) a = a
Accounts-Step (logs_in i k l w e n) a = a
Accounts-Step {h} (registers name f r) a = Accounts-add_user name h.users f r a
Accounts-Step {h} (enters i name l f r) a = Accounts-add_user name h.users f r a
Accounts-Step (reads i m) a = a
Accounts-Step (returns_from_chat i m) a = a
Accounts-Step (returns_from_admin i m) a = a
Accounts-Step (sends i k now text m w on clean) a = a
Accounts-Step (rules i m r) a = a
Accounts-Step {h} (removes i k m w p on) a =
    Accounts-activated _ k (pos 0) (subst Accounts (sym (users-evict _ h)) a)
Accounts-Step {h} (restores i k m w off) a = Accounts-activated h.users k (pos 1) a

pub Accounts-Steps : {h g : Hall} → Steps h g → Accounts h.users → Accounts g.users
Accounts-Steps still a = a
Accounts-Steps (more b c) a = Accounts-Step c (Accounts-Steps b a)

-- The old accounts are where they were, each with its id, its name and its rights.
pub record Kept (old new : List User) : Type 0 where
  pub size : length old ≤ length new
  pub same_id : (k : ℕ) → k < length old → (user_at new k).id ≡ (user_at old k).id
  pub same_name : (k : ℕ) → k < length old → (user_at new k).username ≡ (user_at old k).username
  pub same_rights : (k : ℕ) → k < length old → (user_at new k).is_admin ≡ (user_at old k).is_admin

Kept-refl : (users : List User) → Kept users users
Kept-refl users = record {
  size = omega arith;
  same_id = λ k h. refl;
  same_name = λ k h. refl;
  same_rights = λ k h. refl;
}

pub Kept-trans : (a b c : List User) → Kept a b → Kept b c → Kept a c
Kept-trans a b c p q = record {
  size = omega (arith, p.size, q.size);
  same_id = λ k h. q.same_id k (omega (arith, h, p.size)) ∙ p.same_id k h;
  same_name = λ k h. q.same_name k (omega (arith, h, p.size)) ∙ p.same_name k h;
  same_rights = λ k h. q.same_rights k (omega (arith, h, p.size)) ∙ p.same_rights k h;
}

Kept-add_user : (name : List ℕ) (users : List User) → Kept users (add_user name (pos 0) users)
Kept-add_user name users =
    let u = newest name users in
    subst (Kept users) (sym (add_user-newest name users)) (record {
      size = omega (arith, length-append users (u ∷ []));
      same_id = λ k h. ap (λ v. v.id) (user_at-append users (u ∷ []) k h);
      same_name = λ k h. ap (λ v. v.username) (user_at-append users (u ∷ []) k h);
      same_rights = λ k h. ap (λ v. v.is_admin) (user_at-append users (u ∷ []) k h);
    })

Kept-activated : (users : List User) (k : ℕ) (a : ℤ) → Kept users (activated users k a)
Kept-activated users k a = record {
  size = omega (arith, length-set users k (record (user_at users k) { active = a }));
  same_id = λ j h. id_kept users k j a;
  same_name = λ j h. name_kept users k j a;
  same_rights = λ j h. admin_kept users k j a;
}

Kept-removal :
    (o : Option ℕ) (k : ℕ) (h : Hall) → Kept h.users (activated (evict o h).users k (pos 0))
Kept-removal none k h = Kept-activated h.users k (pos 0)
Kept-removal (some j) k h = Kept-activated h.users k (pos 0)

Kept-Step : {h g : Hall} → Step h g → Kept h.users g.users
Kept-Step {h} (comes i w0 f0) = Kept-refl h.users
Kept-Step {h} (leaves i) = Kept-refl h.users
Kept-Step {h} (logs_in i k l w e n) = Kept-refl h.users
Kept-Step {h} (registers name f r) = Kept-add_user name h.users
Kept-Step {h} (enters i name l f r) = Kept-add_user name h.users
Kept-Step {h} (reads i m) = Kept-refl h.users
Kept-Step {h} (returns_from_chat i m) = Kept-refl h.users
Kept-Step {h} (returns_from_admin i m) = Kept-refl h.users
Kept-Step {h} (sends i k now text m w on clean) = Kept-refl h.users
Kept-Step {h} (rules i m r) = Kept-refl h.users
Kept-Step {h} (removes i k m w p on) =
    Kept-removal (find_index (sits (user_at h.users k).id) h.seats) k h
Kept-Step {h} (restores i k m w off) = Kept-activated h.users k (pos 1)

pub Kept-Steps : {h g : Hall} → Steps h g → Kept h.users g.users
Kept-Steps {h} still = Kept-refl h.users
Kept-Steps {h} {g} (more {g = k} b c) =
    Kept-trans h.users k.users g.users (Kept-Steps b) (Kept-Step c)
