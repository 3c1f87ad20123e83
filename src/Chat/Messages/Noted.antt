-- ===== src/Chat/Messages/Noted.antt =====
-- chat/server.c: what the loop over `messages.db` notes of a user's contacts.
use linux_network_lab.Base.{
  ◌<◌, ◌≡◌, ◌≢◌, refl, sym, ap, ◌∙◌, ◌⊎◌, inl, inr, Bool, true, false, List, [], ◌∷◌, Option, none,
  some, arith, length, All, if◌then◌else◌, ℤ, pos, negsuc, minus_one, ltℤ, ◌==ℤ◌, ==ℤ_iff,
  Bool-cases,
}
use mathlib.Core.Bool.{false≢true}
use linux_network_lab.Chat.Users.{max_users}
use linux_network_lab.Chat.Messages.{HistoryMessage, Contact, unless_nobody, other_id}
use linux_network_lab.Chat.Messages.Between.{Between, exchanged}

pub ltℤ_irrefl : (a : ℤ) → ltℤ a a ≡ false
ltℤ_irrefl (pos n) = ground arith
ltℤ_irrefl (negsuc n) = ground arith

-- From `b ≤ a` and `c ≤ b`.
pub not_lt_trans : (a b c : ℤ) → ltℤ a b ≡ false → ltℤ b c ≡ false → ltℤ a c ≡ false
not_lt_trans (pos a) (pos b) (pos c) h k = ground arith
not_lt_trans (pos a) (pos b) (negsuc c) h k = refl
not_lt_trans (pos a) (negsuc b) (pos c) h k = ground arith
not_lt_trans (pos a) (negsuc b) (negsuc c) h k = refl
not_lt_trans (negsuc a) (pos b) c h k = ground arith
not_lt_trans (negsuc a) (negsuc b) (pos c) h k = ground arith
not_lt_trans (negsuc a) (negsuc b) (negsuc c) h k = ground arith

pub lt_not_lt : (a b : ℤ) → ltℤ a b ≡ true → ltℤ b a ≡ false
lt_not_lt (pos a) (pos b) h = ground arith
lt_not_lt (pos a) (negsuc b) h = ground arith
lt_not_lt (negsuc a) (pos b) h = refl
lt_not_lt (negsuc a) (negsuc b) h = ground arith

-- Zero, or the time of one of the messages.
abbrev pub Reached : ℤ → List HistoryMessage → Type 0
Reached t [] = t ≡ pos 0
Reached t (m ∷ ms) = (m.timestamp ≡ t) ⊎ Reached t ms

-- The latest time of the messages; times before zero count as zero.
pub record IsLastTime (t : ℤ) (ms : List HistoryMessage) : Type 0 where
  pub none_later : All (λ m. ltℤ t m.timestamp ≡ false) ms
  pub not_negative : ltℤ t (pos 0) ≡ false
  pub reached : Reached t ms

-- A contact, after the messages: somebody with whom some were exchanged, at the latest at that time.
pub record IsContact (me : ℤ) (ms : List HistoryMessage) (c : Contact) : Type 0 where
  pub somebody : c.contact_id ≢ minus_one
  pub met : 0 < length (exchanged me c.contact_id ms)
  pub last : IsLastTime c.last_time (exchanged me c.contact_id ms)

-- None of the contacts has the id.
abbrev pub Absent : ℤ → List Contact → Type 0
Absent id cs = All (λ c. c.contact_id ≢ id) cs

-- No id stands twice.
abbrev pub Distinct : List Contact → Type 0
Distinct [] = Unit
Distinct (c ∷ cs) = Absent c.contact_id cs × Distinct cs

-- The contacts that the messages give.
pub record AreContacts (me : ℤ) (ms : List HistoryMessage) (cs : List Contact) : Type 0 where
  pub right : All (IsContact me ms) cs
  pub distinct : Distinct cs
  pub complete :
      (id : ℤ) → Absent id cs → length cs < max_users → id ≢ minus_one → exchanged me id ms ≡ []

-- Whom the message was exchanged with.
pub data OtherView (me : ℤ) (m : HistoryMessage) : Type 0 where
  nobody :
      other_id me m.sender_id m.receiver_id ≡ none
      → ((id : ℤ) → id ≢ minus_one → ¬ (Between me id m))
      → OtherView me m
  someone :
      (o : ℤ)
      → other_id me m.sender_id m.receiver_id ≡ some o
      → o ≢ minus_one
      → Between me o m
      → ((id : ℤ) → Between me id m → id ≡ o)
      → OtherView me m

pub is_true : (a b : ℤ) → a ≡ b → (a ==ℤ b) ≡ true
is_true a b e = (==ℤ_iff a b).1 e

pub is_ne : (a b : ℤ) → (a ==ℤ b) ≡ false → a ≢ b
is_ne a b e h = false≢true (sym e ∙ is_true a b h)

nobody_there : (id : ℤ) → (id ==ℤ minus_one) ≡ true → unless_nobody (some id) ≡ none
nobody_there id e = rw e refl

somebody_there : (id : ℤ) → (id ==ℤ minus_one) ≡ false → unless_nobody (some id) ≡ some id
somebody_there id e = rw e refl

-- There is at most one other, `o`.
only_view :
    (me : ℤ) (m : HistoryMessage) (o : ℤ)
    → other_id me m.sender_id m.receiver_id ≡ unless_nobody (some o)
    → Between me o m
    → ((id : ℤ) → Between me id m → id ≡ o)
    → OtherView me m
only_view me m o e b only = elim (Bool-cases (o ==ℤ minus_one)) [
  | inl r ↦ nobody (e ∙ nobody_there o r) (λ id n c. n (only id c ∙ (==ℤ_iff o minus_one).0 r))
  | inr r ↦ someone o (e ∙ somebody_there o r) (is_ne o minus_one r) b only
]

pick : ℤ → HistoryMessage → Bool → Bool → Option ℤ
pick me m s r = if s then some m.receiver_id else if r then some m.sender_id else none

pub other_view : (me : ℤ) (m : HistoryMessage) → OtherView me m
unfolding pick
other_view me m =
    let sent = m.sender_id ==ℤ me in
    let got = m.receiver_id ==ℤ me in
    elim (Bool-cases sent) [
      | inl s ↦
          let s' = (==ℤ_iff m.sender_id me).0 s in
          only_view me m m.receiver_id (ap (λ c. unless_nobody (pick me m c got)) s)
            (inl (s', refl))
            (λ id b. elim b [ inl (x, y) ↦ sym y | inr (x, y) ↦ sym x ∙ s' ∙ sym y ])
      | inr s ↦ elim (Bool-cases got) [
        | inl r ↦
            only_view me m m.sender_id
              (ap (λ c. unless_nobody (pick me m c got)) s
                ∙ ap (λ c. unless_nobody (pick me m false c)) r)
              (inr (refl, (==ℤ_iff m.receiver_id me).0 r))
              (λ id b. elim b [
                | inl (x, y) ↦ absurd (is_ne m.sender_id me s x)
                | inr (x, y) ↦ sym x
              ])
        | inr r ↦
            nobody
              (ap (λ c. unless_nobody (pick me m c got)) s
                ∙ ap (λ c. unless_nobody (pick me m false c)) r)
              (λ id n b. elim b [
                | inl (x, y) ↦ is_ne m.sender_id me s x
                | inr (x, y) ↦ is_ne m.receiver_id me r y
              ])
      ]
    ]
