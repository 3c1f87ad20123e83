-- ===== src/Chat/Messages/Between.antt =====
-- chat/server.c: the messages between two users, told by their ids alone.
use linux_network_lab.Base.{
  ◌≡◌, refl, sym, ap, ◌∙◌, ◌↔◌, ◌⊎◌, inl, inr, Bool, true, false, ◌&&◌, ◌||◌, List, [], ◌∷◌, ◌++◌,
  ℤ, ◌==ℤ◌, ==ℤ_iff, Bool-cases,
}
use mathlib.Core.Bool.{false≢true}
use linux_network_lab.Chat.Messages.{HistoryMessage, belongs_to_chat}

-- One of the two sent the message to the other.
abbrev pub Between : ℤ → ℤ → HistoryMessage → Type 0
Between me partner m =
    ((m.sender_id ≡ me) × (m.receiver_id ≡ partner))
    ⊎ ((m.sender_id ≡ partner) × (m.receiver_id ≡ me))

and_split : (a b : Bool) → (a && b) ≡ true → (a ≡ true) × (b ≡ true)
and_split true b e = (refl, e)
and_split false b e = absurd (false≢true e)

or_split : (a b : Bool) → (a || b) ≡ true → (a ≡ true) ⊎ (b ≡ true)
or_split true b e = inl refl
or_split false b e = inr e

or_true : (a b : Bool) → b ≡ true → (a || b) ≡ true
or_true true b e = refl
or_true false b e = e

belongs_to_chat-Between :
    (me partner : ℤ) (m : HistoryMessage)
    → (belongs_to_chat me partner m ≡ true) ↔ Between me partner m
belongs_to_chat-Between me partner m =
    let from_me = m.sender_id ==ℤ me && m.receiver_id ==ℤ partner in
    let to_me = m.sender_id ==ℤ partner && m.receiver_id ==ℤ me in
    (
      λ e. elim (or_split from_me to_me e) [
        | inl h ↦
            let (s, r) = and_split _ _ h in
            inl ((==ℤ_iff m.sender_id me).0 s, (==ℤ_iff m.receiver_id partner).0 r)
        | inr h ↦
            let (s, r) = and_split _ _ h in
            inr ((==ℤ_iff m.sender_id partner).0 s, (==ℤ_iff m.receiver_id me).0 r)
      ],
      λ b. elim b [
        | inl (s, r) ↦ rw ((==ℤ_iff m.sender_id me).1 s, (==ℤ_iff m.receiver_id partner).1 r) refl
        | inr (s, r) ↦
            or_true from_me to_me
              (rw ((==ℤ_iff m.sender_id partner).1 s, (==ℤ_iff m.receiver_id me).1 r) refl)
      ],
    )

same_dec : (a b : ℤ) → Dec (a ≡ b)
same_dec a b = elim (Bool-cases (a ==ℤ b)) [
  | inl e ↦ yes ((==ℤ_iff a b).0 e)
  | inr e ↦ no (λ h. false≢true (sym e ∙ (==ℤ_iff a b).1 h))
]

both_dec : {A B : Type 0} → Dec A → Dec B → Dec (A × B)
both_dec (yes a) (yes b) = yes (a, b)
both_dec (yes a) (no n) = no (λ h. n h.1)
both_dec (no n) d = no (λ h. n h.0)

either_dec : {A B : Type 0} → Dec A → Dec B → Dec (A ⊎ B)
either_dec (yes a) d = yes (inl a)
either_dec (no n) (yes b) = yes (inr b)
either_dec (no n) (no k) = no (λ h. elim h [ inl a ↦ n a | inr b ↦ k b ])

between_dec : (me partner : ℤ) (m : HistoryMessage) → Dec (Between me partner m)
between_dec me partner m =
    either_dec (both_dec (same_dec m.sender_id me) (same_dec m.receiver_id partner))
      (both_dec (same_dec m.sender_id partner) (same_dec m.receiver_id me))

keep : {P : Type 0} → Dec P → HistoryMessage → List HistoryMessage → List HistoryMessage
keep (yes p) m ms = m ∷ ms
keep (no n) m ms = ms

keep_yes :
    {P : Type 0} (d : Dec P) (m : HistoryMessage) (ms : List HistoryMessage)
    → P
    → keep d m ms ≡ m ∷ ms
unfolding keep
keep_yes (yes p) m ms b = refl
keep_yes (no n) m ms b = absurd (n b)

keep_no :
    {P : Type 0} (d : Dec P) (m : HistoryMessage) (ms : List HistoryMessage)
    → ¬ P
    → keep d m ms ≡ ms
unfolding keep
keep_no (yes p) m ms b = absurd (b p)
keep_no (no n) m ms b = refl

-- The messages between the two users, oldest first.
pub exchanged : ℤ → ℤ → List HistoryMessage → List HistoryMessage
exchanged me partner [] = []
exchanged me partner (m ∷ ms) = keep (between_dec me partner m) m (exchanged me partner ms)

pub exchanged_none : (me partner : ℤ) → exchanged me partner [] ≡ []
unfolding exchanged
exchanged_none me partner = refl

pub exchanged_met :
    (me partner : ℤ) (m : HistoryMessage) (ms : List HistoryMessage)
    → Between me partner m
    → exchanged me partner (m ∷ ms) ≡ m ∷ exchanged me partner ms
unfolding exchanged
exchanged_met me partner m ms b = keep_yes (between_dec me partner m) m _ b

pub exchanged_apart :
    (me partner : ℤ) (m : HistoryMessage) (ms : List HistoryMessage)
    → ¬ (Between me partner m)
    → exchanged me partner (m ∷ ms) ≡ exchanged me partner ms
unfolding exchanged
exchanged_apart me partner m ms b = keep_no (between_dec me partner m) m _ b

-- As `belongs_to_chat` tells them.
pub exchanged_ours :
    (me partner : ℤ) (m : HistoryMessage) (ms : List HistoryMessage)
    → belongs_to_chat me partner m ≡ true
    → exchanged me partner (m ∷ ms) ≡ m ∷ exchanged me partner ms
exchanged_ours me partner m ms e =
    exchanged_met me partner m ms ((belongs_to_chat-Between me partner m).0 e)

pub exchanged_theirs :
    (me partner : ℤ) (m : HistoryMessage) (ms : List HistoryMessage)
    → belongs_to_chat me partner m ≡ false
    → exchanged me partner (m ∷ ms) ≡ exchanged me partner ms
exchanged_theirs me partner m ms e =
    exchanged_apart me partner m ms
      (λ b. false≢true (sym e ∙ (belongs_to_chat-Between me partner m).1 b))

-- A message behind the others.
pub exchanged_last :
    (me partner : ℤ) (ms : List HistoryMessage) (m : HistoryMessage)
    → exchanged me partner (ms ++ m ∷ []) ≡ exchanged me partner ms ++ exchanged me partner (m ∷ [])
unfolding exchanged
exchanged_last me partner [] m = refl
exchanged_last me partner (n ∷ ms) m = elim (between_dec me partner n) [
  | yes here ↦
      rw (exchanged_met me partner n (ms ++ m ∷ []) here, exchanged_met me partner n ms here)
        (ap (◌∷◌ n) (exchanged_last me partner ms m))
  | no away ↦
      rw (exchanged_apart me partner n (ms ++ m ∷ []) away, exchanged_apart me partner n ms away)
        (exchanged_last me partner ms m)
]
