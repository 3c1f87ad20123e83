-- ===== src/Chat/Messages/Raised.antt =====
-- chat/server.c: one more message and the contacts that are noted.
use linux_network_lab.Base.{
  ℕ, suc, ◌≡◌, refl, sym, ap, subst, ◌∙◌, inl, inr, Bool, false, List, [], ◌∷◌, ◌++◌, none, some,
  length, All, get_or, if◌then◌else◌, find_index, ℤ, pos, ltℤ, ◌==ℤ◌, Bool-cases, Option-cases,
  some-inj,
}
use mathlib.Core.Option.{none-ne-some}
use linux_network_lab.Chat.Messages.{HistoryMessage, Contact, no_contact, raise_time}
use linux_network_lab.Chat.Messages.Noted.{
  not_lt_trans, lt_not_lt, ltℤ_irrefl, Reached, IsLastTime, Absent, is_ne,
}

-- The later of the two times.
abbrev later : ℤ → ℤ → ℤ
later t u = if ltℤ t u then u else t

abbrev pub raise : ℤ → Contact → Contact
raise u c = record { contact_id = c.contact_id; last_time = later c.last_time u }

All-snoc :
    (P : HistoryMessage → Type 0) (ms : List HistoryMessage) (m : HistoryMessage)
    → All P ms
    → P m
    → All P (ms ++ m ∷ [])
All-snoc P [] m h p = (p, tt)
All-snoc P (n ∷ ms) m (q, h) p = (q, All-snoc P ms m h p)

pub All-map :
    {A : Type 0} (P Q : A → Type 0) (xs : List A) → ((x : A) → P x → Q x) → All P xs → All Q xs
All-map P Q [] f h = tt
All-map P Q (x ∷ xs) f (p, h) = (f x p, All-map P Q xs f h)

Reached-old :
    (t : ℤ) (ms : List HistoryMessage) (m : HistoryMessage)
    → Reached t ms
    → Reached t (ms ++ m ∷ [])
Reached-old t [] m r = inr r
Reached-old t (n ∷ ms) m (inl e) = inl e
Reached-old t (n ∷ ms) m (inr r) = inr (Reached-old t ms m r)

Reached-new : (ms : List HistoryMessage) (m : HistoryMessage) → Reached m.timestamp (ms ++ m ∷ [])
Reached-new [] m = inl refl
Reached-new (n ∷ ms) m = inr (Reached-new ms m)

-- One more message.
pub later-IsLastTime :
    (t : ℤ) (ms : List HistoryMessage) (m : HistoryMessage)
    → IsLastTime t ms
    → IsLastTime (later t m.timestamp) (ms ++ m ∷ [])
later-IsLastTime t ms m l =
    let u = m.timestamp in
    elim (Bool-cases (ltℤ t u)) [
      | inl up ↦
          let below = lt_not_lt t u up in
          rw up (record {
            none_later =
                All-snoc (λ n. ltℤ u n.timestamp ≡ false) ms m
                  (All-map (λ n. ltℤ t n.timestamp ≡ false) (λ n. ltℤ u n.timestamp ≡ false) ms
                    (λ n k. not_lt_trans u t n.timestamp below k) l.none_later)
                  (ltℤ_irrefl u);
            not_negative = not_lt_trans u t (pos 0) below l.not_negative;
            reached = Reached-new ms m;
          })
      | inr stays ↦ rw stays (record {
        none_later = All-snoc (λ n. ltℤ t n.timestamp ≡ false) ms m l.none_later stays;
        not_negative = l.not_negative;
        reached = Reached-old t ms m l.reached;
      })
    ]

-- `raise_time` at the contact that is found, without the index.
unfoldable pub raised : ℤ → ℤ → List Contact → List Contact
raised o u [] = []
raised o u (c ∷ cs) =
    let rest = c ∷ raised o u cs in if c.contact_id ==ℤ o then raise u c ∷ cs else rest

raise_time-first :
    (u : ℤ) (c : Contact) (cs : List Contact) → raise_time 0 u (c ∷ cs) ≡ raise u c ∷ cs
raise_time-first u c cs = elim (Bool-cases (ltℤ c.last_time u)) [
  | inl up ↦ rw up refl
  | inr stays ↦ rw stays refl
]

raise_time-later :
    (k : ℕ) (u : ℤ) (c : Contact) (cs : List Contact)
    → raise_time (suc k) u (c ∷ cs) ≡ c ∷ raise_time k u cs
raise_time-later k u c cs = elim (Bool-cases (ltℤ (get_or cs k no_contact).last_time u)) [
  | inl up ↦ rw up refl
  | inr stays ↦ rw stays refl
]

pub raise_time-last :
    (u : ℤ) (cs : List Contact) (c : Contact)
    → raise_time (length cs) u (cs ++ c ∷ []) ≡ cs ++ raise u c ∷ []
raise_time-last u [] c = raise_time-first u c []
raise_time-last u (d ∷ cs) c =
    raise_time-later (length cs) u d (cs ++ c ∷ []) ∙ ap (◌∷◌ d) (raise_time-last u cs c)

pub raise_time-raised :
    (o u : ℤ) (cs : List Contact) (k : ℕ)
    → find_index (λ c. c.contact_id ==ℤ o) cs ≡ some k
    → raise_time k u cs ≡ raised o u cs
unfolding find_index raised
raise_time-raised o u [] k e = absurd (none-ne-some k e)
raise_time-raised o u (c ∷ cs) k e = elim (Bool-cases (c.contact_id ==ℤ o)) [
  | inl hit ↦ rw hit (
      subst (λ n. raise_time n u (c ∷ cs) ≡ raise u c ∷ cs) (some-inj (rw hit at e))
        (raise_time-first u c cs))
  | inr miss ↦
      let p : Contact → Bool = λ d. d.contact_id ==ℤ o in
      elim (Option-cases (find_index p cs)) [
        | inl nowhere ↦ absurd (none-ne-some k (rw (miss, nowhere) at e))
        | inr (j, there) ↦ rw miss (
            subst (λ n. raise_time n u (c ∷ cs) ≡ c ∷ raised o u cs)
              (some-inj (rw (miss, there) at e))
              (raise_time-later j u c cs ∙ ap (◌∷◌ c) (raise_time-raised o u cs j there)))
      ]
]

pub find_index-Absent :
    (o : ℤ) (cs : List Contact) → find_index (λ c. c.contact_id ==ℤ o) cs ≡ none → Absent o cs
unfolding find_index
find_index-Absent o [] e = tt
find_index-Absent o (c ∷ cs) e = elim (Bool-cases (c.contact_id ==ℤ o)) [
  | inl hit ↦ absurd (none-ne-some 0 (sym (rw hit at e)))
  | inr miss ↦
      let p : Contact → Bool = λ d. d.contact_id ==ℤ o in
      elim (Option-cases (find_index p cs)) [
        | inl nowhere ↦ (is_ne c.contact_id o miss, find_index-Absent o cs nowhere)
        | inr (j, there) ↦ absurd (none-ne-some (suc j) (sym (rw (miss, there) at e)))
      ]
]
