-- ===== src/Chat/Hall/Frame.antt =====
-- chat/server.c: what the helpers leave as it is in the hall.
use linux_network_lab.Base.{
  ℕ, zero, suc, ◌≡◌, refl, sym, ap, subst, ◌∙◌, inl, inr, List, [], ◌∷◌, map, set, get_or, ltb,
  find_index, ℤ, Bool-cases, Option-cases,
}
use linux_network_lab.Chat.State.{
  max_clients, Mode, Client, free_client, Reply, Chat, Answers, client_at, set_client, tell,
  find_client_by_user_id, disconnect_client, save,
}
use linux_network_lab.Chat.Users.Db.{save_users}
use linux_network_lab.Chat.Pages.{
  tell_all, show_conversation_list, show_last_messages, show_admin_page, listed, menu_page,
}
use linux_network_lab.Chat.Hall.{
  Seat, seat_of, Hall, hall, free_seat, seat_at, put, sits, Step, leaves, Steps, still, more,
}

pub map-set :
    (cs : List Client) (i : ℕ) (c : Client)
    → map seat_of (set cs i c) ≡ set (map seat_of cs) i (seat_of c)
map-set [] i c = refl
map-set (x ∷ cs) zero c = refl
map-set (x ∷ cs) (suc i) c = ap (◌∷◌ (seat_of x)) (map-set cs i c)

pub get_or-map :
    (cs : List Client) (i : ℕ)
    → get_or (map seat_of cs) i free_seat ≡ seat_of (get_or cs i free_client)
get_or-map [] i = refl
get_or-map (x ∷ cs) zero = refl
get_or-map (x ∷ cs) (suc i) = get_or-map cs i

set-get_or : (xs : List Seat) (i : ℕ) → set xs i (get_or xs i free_seat) ≡ xs
set-get_or [] i = refl
set-get_or (x ∷ xs) zero = refl
set-get_or (x ∷ xs) (suc i) = ap (◌∷◌ x) (set-get_or xs i)

pub hall-set_client :
    (i : ℕ) (c : Client) (s : Chat) → hall (set_client i c s) ≡ put i (seat_of c) (hall s)
hall-set_client i c s =
    ap (λ (xs : List Seat). record (hall s) { seats = xs }) (map-set s.clients i c)

pub seat_at-hall : (i : ℕ) (s : Chat) → seat_at (hall s) i ≡ seat_of (client_at s i)
seat_at-hall i s = get_or-map s.clients i

-- What is kept with a client beside its seat may change.
pub hall-same_seat :
    (i : ℕ) (c : Client) (s : Chat)
    → seat_of c ≡ seat_of (client_at s i)
    → hall (set_client i c s) ≡ hall s
hall-same_seat i c s e =
    hall-set_client i c s
    ∙ ap (λ x. put i x (hall s)) (e ∙ sym (seat_at-hall i s))
    ∙ ap (λ x. record (hall s) { seats = x }) (set-get_or (map seat_of s.clients) i)

pub hall-tell_all : (i : ℕ) (rs : List Reply) (s : Chat) → hall (tell_all i rs s) ≡ hall s
unfolding tell_all
hall-tell_all i [] s = refl
hall-tell_all i (r ∷ rs) s = hall-tell_all i rs (tell i r s)

pub hall-show_conversation_list :
    (io : Answers) (i : ℕ) (s : Chat) → hall (show_conversation_list io i s) ≡ hall s
unfolding show_conversation_list
hall-show_conversation_list io i s =
    let c = client_at s i in
    let ids = listed io c.user_id s in
    hall-tell_all i (menu_page s c.user_id ids)
      (set_client i (record c { menu_contact_ids = ids }) s)
    ∙ hall-same_seat i (record c { menu_contact_ids = ids }) s refl

pub hall-show_last_messages :
    (io : Answers) (i : ℕ) (partner : ℤ) (s : Chat)
    → hall (show_last_messages io i partner s) ≡ hall s
unfolding show_last_messages
hall-show_last_messages io i partner s = elim (Bool-cases io.read_opened) [
  | inl good ↦ rw (good, show_last_messages) (hall-tell_all i _ s)
  | inr bad ↦ rw (bad, show_last_messages) refl
]

pub hall-show_admin_page : (i : ℕ) (s : Chat) → hall (show_admin_page i s) ≡ hall s
unfolding show_admin_page
hall-show_admin_page i s = hall-tell_all i _ s

pub hall-save : (io : Answers) (s : Chat) → hall (save io.saving s).1 ≡ hall s
unfolding save
hall-save io s = elim (Option-cases (save_users io.saving s.users)) [
  | inl bad ↦ rw (bad, save) refl
  | inr (bytes, good) ↦ rw (good, save) refl
]

pub clients-save : (io : Answers) (s : Chat) → (save io.saving s).1.clients ≡ s.clients
unfolding save
clients-save io s = elim (Option-cases (save_users io.saving s.users)) [
  | inl bad ↦ rw (bad, save) refl
  | inr (bytes, good) ↦ rw (good, save) refl
]

pub find_index-map :
    (id : ℤ) (cs : List Client)
    → find_index (sits id) (map seat_of cs) ≡ find_client_by_user_id cs id
unfolding find_client_by_user_id find_index
find_index-map id [] = refl
find_index-map id (c ∷ cs) = rw (find_index-map id cs) refl

-- Steps to a hall that is the same.
pub arrive : {h g k : Hall} → Steps h g → g ≡ k → Steps h k
arrive {h} steps e = subst (λ x. Steps h x) e steps

pub step_to : {h k : Hall} → Step h k → Steps h k
step_to s = more still s

pub then_steps : {h g k : Hall} → Steps h g → Steps g k → Steps h k
then_steps a still = a
then_steps a (more b s) = more (then_steps a b) s

pub hall-disconnect_client : (i : ℕ) (s : Chat) → Steps (hall s) (hall (disconnect_client i s))
unfolding disconnect_client
hall-disconnect_client i s = elim (Bool-cases (ltb i max_clients)) [
  | inr bad ↦ rw (bad, disconnect_client) still
  | inl good ↦ elim (Bool-cases (client_at s i).active) [
    | inr gone ↦ rw (good, gone, disconnect_client) still
    | inl on ↦
        rw (good, on, disconnect_client)
          (arrive (step_to (leaves i)) (sym (hall-set_client i free_client s)))
  ]
]

-- Only the mode of the client changes.
pub hall-turn :
    (i : ℕ) (m : Mode) (c : Client) (s : Chat)
    → seat_of c ≡ record (seat_of (client_at s i)) { mode = m }
    → hall (set_client i c s) ≡ put i (record (seat_at (hall s) i) { mode = m }) (hall s)
hall-turn i m c s e =
    hall-set_client i c s
    ∙ ap (λ x. put i x (hall s))
        (e ∙ ap {A = Seat} (λ x. record x { mode = m }) (sym (seat_at-hall i s)))

pub mode-hall :
    (i : ℕ) (m : Mode) (s : Chat) → (client_at s i).mode ≡ m → (seat_at (hall s) i).mode ≡ m
mode-hall i m s e = ap (λ x. x.mode) (seat_at-hall i s) ∙ e
