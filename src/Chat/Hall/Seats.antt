-- ===== src/Chat/Hall/Seats.antt =====
-- chat/server.c: who may do what, through every step of the abstract server.
use linux_network_lab.Base.{
  ℕ, zero, suc, ◌≡◌, refl, sym, ap, subst, ◌∙◌, Bool, true, false, inl, inr, ◌⊎◌, List, [], ◌∷◌,
  Option, none, some, set, get_or, find_index, ℤ, pos,
}
use mathlib.Core.Bool.{false≢true}
use linux_network_lab.Chat.Users.{User, user_at, add_user}
use linux_network_lab.Chat.State.{Mode, mode_login, mode_menu, mode_chat, mode_admin}
use linux_network_lab.Chat.Pages.{is_admin_id}
use linux_network_lab.Chat.Hall.{
  Seat, Hall, free_seat, newcomer, sits, seat_at, put, session, may_rule, evict, Step, comes,
  leaves, logs_in, sends, registers, enters, reads, returns_from_chat, returns_from_admin, rules,
  removes, restores, Steps, still, more,
}
use linux_network_lab.Chat.Hall.Table.{activated, is_admin-append, is_admin-activated}
use linux_network_lab.Chat.Hall.Numbers.{newest, add_user-newest}

-- What a seat is after a write to some seat.
pub seat_at-put :
    (xs : List Seat) (i j : ℕ) (x : Seat)
    → ((i ≡ j) × (get_or (set xs i x) j free_seat ≡ x))
      ⊎ (get_or (set xs i x) j free_seat ≡ get_or xs j free_seat)
seat_at-put [] i j x = inr refl
seat_at-put (y ∷ xs) zero zero x = inl (refl, refl)
seat_at-put (y ∷ xs) zero (suc j) x = inr refl
seat_at-put (y ∷ xs) (suc i) zero x = inr refl
seat_at-put (y ∷ xs) (suc i) (suc j) x = elim (seat_at-put xs i j x) [
  | inl (e, f) ↦ inl (ap suc e, f)
  | inr f ↦ inr f
]

-- Only the administrator's page asks for rights.
abbrev pub MayStay : List User → Seat → Type 0
MayStay users x =
    ((x.logged_in ≡ true) ⊎ (x.mode ≡ mode_login))
    × (x.mode ≡ mode_admin → is_admin_id users x.user_id ≡ true)

-- Who is past the login is logged in, and who is on the administrator's page is an administrator.
abbrev pub Authorized : Hall → Type 0
Authorized h = (i : ℕ) → MayStay h.users (seat_at h i)

Authorized-put :
    (h : Hall) (i : ℕ) (x : Seat) → MayStay h.users x → Authorized h → Authorized (put i x h)
Authorized-put h i x may a j = elim (seat_at-put h.seats i j x) [
  | inl (e, f) ↦ subst (MayStay h.users) (sym f) may
  | inr f ↦ subst (MayStay h.users) (sym f) (a j)
]

Authorized-users :
    (h : Hall) (users : List User)
    → ((id : ℤ) → is_admin_id h.users id ≡ true → is_admin_id users id ≡ true)
    → Authorized h
    → Authorized (record h { users = users })
Authorized-users h users keeps a j = ((a j).0, λ m. keeps (seat_at h j).user_id ((a j).1 m))

-- A mode other than `mode_login`.
abbrev past_login : (m : Mode) → Bool
past_login mode_login = false
past_login mode_menu = true
past_login mode_chat = true
past_login mode_admin = true

abbrev in_admin : Mode → Bool
in_admin mode_login = false
in_admin mode_menu = false
in_admin mode_chat = false
in_admin mode_admin = true

not_ruling :
    (users : List User) (x : Seat)
    → in_admin x.mode ≡ false
    → x.mode ≡ mode_admin
    → is_admin_id users x.user_id ≡ true
not_ruling users x e m = absurd (false≢true (sym e ∙ ap in_admin m))

pub MayStay-free : (users : List User) → MayStay users free_seat
MayStay-free users = (inr refl, not_ruling users free_seat refl)

-- A client past the login is logged in.
logged_in_past :
    (users : List User) (x : Seat) (m : Mode)
    → MayStay users x
    → x.mode ≡ m
    → past_login m ≡ true
    → x.logged_in ≡ true
logged_in_past users x m may e p = elim may.0 [
  | inl l ↦ l
  | inr login ↦ absurd (false≢true (ap past_login (sym login ∙ e) ∙ p))
]

Authorized-turn :
    (h : Hall) (i : ℕ) (m n : Mode)
    → (seat_at h i).mode ≡ m
    → past_login m ≡ true
    → (n ≡ mode_admin → may_rule h (seat_at h i) ≡ true)
    → Authorized h
    → Authorized (put i (record (seat_at h i) { mode = n }) h)
Authorized-turn h i m n e p rights a =
    Authorized-put h i (record (seat_at h i) { mode = n })
      (inl (logged_in_past h.users (seat_at h i) m (a i) e p), rights) a

Authorized-session :
    (h : Hall) (i : ℕ) (id : ℤ) → Authorized h → Authorized (put i (session id (seat_at h i)) h)
Authorized-session h i id a =
    Authorized-put h i (session id (seat_at h i))
      (inl refl, not_ruling h.users (session id (seat_at h i)) refl) a

Authorized-add_user :
    (name : List ℕ) (h : Hall)
    → Authorized h
    → Authorized (record h { users = add_user name (pos 0) h.users })
Authorized-add_user name h a =
    Authorized-users h (add_user name (pos 0) h.users)
      (λ id e.
        subst (λ us. is_admin_id us id ≡ true) (sym (add_user-newest name h.users))
          (is_admin-append h.users (newest name h.users ∷ []) id e))
      a

Authorized-activated :
    (h : Hall) (k : ℕ) (active : ℤ)
    → Authorized h
    → Authorized (record h { users = activated h.users k active })
Authorized-activated h k active a =
    Authorized-users h (activated h.users k active)
      (λ id e. is_admin-activated h.users k active id ∙ e) a

Authorized-evict : (o : Option ℕ) (h : Hall) → Authorized h → Authorized (evict o h)
Authorized-evict none h a = a
Authorized-evict (some j) h a =
    Authorized-put h j free_seat (inr refl, not_ruling h.users free_seat refl) a

Authorized-Step : {h g : Hall} → Step h g → Authorized h → Authorized g
Authorized-Step {h} (comes i w0 f0) a =
    Authorized-put h i newcomer (inr refl, not_ruling h.users newcomer refl) a
Authorized-Step {h} (leaves i) a =
    Authorized-put h i free_seat (inr refl, not_ruling h.users free_seat refl) a
Authorized-Step {h} (logs_in i k l w e n) a = Authorized-session h i (user_at h.users k).id a
Authorized-Step {h} (registers name f r) a = Authorized-add_user name h a
Authorized-Step {h} (enters i name l f r) a =
    Authorized-session (record h { users = add_user name (pos 0) h.users }) i
      (newest name h.users).id (Authorized-add_user name h a)
Authorized-Step {h} (reads i m) a =
    Authorized-turn h i mode_menu mode_chat m refl (λ e. absurd (false≢true (ap in_admin e))) a
Authorized-Step {h} (returns_from_chat i m) a =
    Authorized-turn h i mode_chat mode_menu m refl (λ e. absurd (false≢true (ap in_admin e))) a
Authorized-Step {h} (returns_from_admin i m) a =
    Authorized-turn h i mode_admin mode_menu m refl (λ e. absurd (false≢true (ap in_admin e))) a
Authorized-Step {h} (sends i k now text m w on clean) a = a
Authorized-Step {h} (rules i m r) a = Authorized-turn h i mode_menu mode_admin m refl (λ e. r) a
Authorized-Step {h} (removes i k m w p on) a =
    let o = find_index (sits (user_at h.users k).id) h.seats in
    Authorized-activated (evict o h) k (pos 0) (Authorized-evict o h a)
Authorized-Step {h} (restores i k m w off) a = Authorized-activated h k (pos 1) a

pub Authorized-Steps : {h g : Hall} → Steps h g → Authorized h → Authorized g
Authorized-Steps still a = a
Authorized-Steps (more b c) a = Authorized-Step c (Authorized-Steps b a)
