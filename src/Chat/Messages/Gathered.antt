-- ===== src/Chat/Messages/Gathered.antt =====
-- chat/server.c: the contacts that a file of messages gives.
use linux_network_lab.Base.{
  ℕ, suc, ◌≤◌, ◌<◌, ◌≡◌, ◌≢◌, refl, sym, ap, subst, ◌∙◌, inl, inr, Bool, List, [], ◌∷◌, ◌++◌,
  append-nil, some, arith, length, length-append, All, find_index, ℤ, pos, minus_one, ◌==ℤ◌,
  ==ℤ_iff, Bool-cases, Option-cases,
}
use mathlib.Core.Option.{none-ne-some}
use linux_network_lab.Chat.Users.{max_users}
use linux_network_lab.Chat.Messages.{HistoryMessage, Contact}
use linux_network_lab.Chat.Messages.Between.{
  Between, exchanged, exchanged_none, exchanged_met, exchanged_apart, exchanged_last,
}
use linux_network_lab.Chat.Messages.Noted.{
  IsLastTime, IsContact, Absent, Distinct, AreContacts, is_ne,
}
use linux_network_lab.Chat.Messages.Raised.{raise, later-IsLastTime, raised, All-map}

pub found_not-Absent :
    (o : ℤ) (cs : List Contact) (k : ℕ)
    → find_index (λ c. c.contact_id ==ℤ o) cs ≡ some k
    → ¬ (Absent o cs)
unfolding find_index
found_not-Absent o [] k e a = none-ne-some k e
found_not-Absent o (c ∷ cs) k e (n, a) = elim (Bool-cases (c.contact_id ==ℤ o)) [
  | inl hit ↦ n ((==ℤ_iff c.contact_id o).0 hit)
  | inr miss ↦
      let p : Contact → Bool = λ d. d.contact_id ==ℤ o in
      elim (Option-cases (find_index p cs)) [
        | inl nowhere ↦ none-ne-some k (rw (miss, nowhere) at e)
        | inr (j, there) ↦ found_not-Absent o cs j there a
      ]
]

-- Raising a time changes no id.
raised-Absent : (id o u : ℤ) (cs : List Contact) → Absent id cs → Absent id (raised o u cs)
unfolding raised
raised-Absent id o u [] a = tt
raised-Absent id o u (c ∷ cs) (n, a) = elim (Bool-cases (c.contact_id ==ℤ o)) [
  | inl hit ↦ rw hit (n, a)
  | inr miss ↦ rw miss (n, raised-Absent id o u cs a)
]

Absent-raised : (id o u : ℤ) (cs : List Contact) → Absent id (raised o u cs) → Absent id cs
unfolding raised
Absent-raised id o u [] a = tt
Absent-raised id o u (c ∷ cs) a = elim (Bool-cases (c.contact_id ==ℤ o)) [
  | inl hit ↦ rw hit at a
  | inr miss ↦
      let (n, rest) : (c.contact_id ≢ id) × Absent id (raised o u cs) = rw miss at a in
      (n, Absent-raised id o u cs rest)
]

raised-Distinct : (o u : ℤ) (cs : List Contact) → Distinct cs → Distinct (raised o u cs)
unfolding raised
raised-Distinct o u [] d = tt
raised-Distinct o u (c ∷ cs) (a, d) = elim (Bool-cases (c.contact_id ==ℤ o)) [
  | inl hit ↦ rw hit (a, d)
  | inr miss ↦ rw miss (raised-Absent c.contact_id o u cs a, raised-Distinct o u cs d)
]

length-raised : (o u : ℤ) (cs : List Contact) → length (raised o u cs) ≡ length cs
unfolding raised
length-raised o u [] = refl
length-raised o u (c ∷ cs) = elim (Bool-cases (c.contact_id ==ℤ o)) [
  | inl hit ↦ rw hit refl
  | inr miss ↦ rw miss (ap suc (length-raised o u cs))
]

snoc-All :
    (P : Contact → Type 0) (cs : List Contact) (c : Contact) → All P cs → P c → All P (cs ++ c ∷ [])
snoc-All P [] c h p = (p, tt)
snoc-All P (d ∷ cs) c (q, h) p = (q, snoc-All P cs c h p)

All-snoc_parts :
    (P : Contact → Type 0) (cs : List Contact) (c : Contact) → All P (cs ++ c ∷ []) → All P cs × P c
All-snoc_parts P [] c (p, h) = (tt, p)
All-snoc_parts P (d ∷ cs) c (q, h) = let (r, p) = All-snoc_parts P cs c h in ((q, r), p)

snoc-Distinct :
    (cs : List Contact) (c : Contact)
    → Distinct cs
    → Absent c.contact_id cs
    → Distinct (cs ++ c ∷ [])
snoc-Distinct [] c d a = (tt, tt)
snoc-Distinct (b ∷ cs) c (n, d) (m, a) =
    (snoc-All _ cs c n (λ e. m (sym e)), snoc-Distinct cs c d a)

module _ (me : ℤ) (before : List HistoryMessage) (m : HistoryMessage) where
  abbrev after : List HistoryMessage
  after = before ++ m ∷ []

  unchanged : (id : ℤ) → ¬ (Between me id m) → exchanged me id after ≡ exchanged me id before
  unchanged id n =
      exchanged_last me id before m
      ∙ ap (λ ns. exchanged me id before ++ ns)
          (exchanged_apart me id m [] n ∙ exchanged_none me id)
      ∙ append-nil (exchanged me id before)

  extended : (id : ℤ) → Between me id m → exchanged me id after ≡ exchanged me id before ++ m ∷ []
  extended id b =
      exchanged_last me id before m
      ∙ ap (λ ns. exchanged me id before ++ ns)
          (exchanged_met me id m [] b ∙ ap (◌∷◌ m) (exchanged_none me id))

  kept :
      (c : Contact) → ¬ (Between me c.contact_id m) → IsContact me before c → IsContact me after c
  kept c n h =
      let e = sym (unchanged c.contact_id n) in
      record {
        somebody = h.somebody;
        met = subst (λ ns. 0 < length ns) e h.met;
        last = subst (λ ns. IsLastTime c.last_time ns) e h.last;
      }

  raised_one :
      (c : Contact)
      → Between me c.contact_id m
      → c.contact_id ≢ minus_one
      → IsLastTime c.last_time (exchanged me c.contact_id before)
      → IsContact me after (raise m.timestamp c)
  raised_one c b n h =
      let old = exchanged me c.contact_id before in
      let e = sym (extended c.contact_id b) in
      record {
        somebody = n;
        met = subst (λ ns. 0 < length ns) e (omega (arith, length-append old (m ∷ [])));
        last =
            subst (λ ns. IsLastTime (raise m.timestamp c).last_time ns) e
              (later-IsLastTime c.last_time old m h);
      }

  -- A message that is no contact's.
  pub nobody_step :
      (cs : List Contact)
      → ((id : ℤ) → id ≢ minus_one → ¬ (Between me id m))
      → AreContacts me before cs
      → AreContacts me after cs
  nobody_step cs apart h = record {
    right =
        All-map (IsContact me before) (IsContact me after) cs
          (λ c k. kept c (apart c.contact_id k.somebody) k) h.right;
    distinct = h.distinct;
    complete = λ id a l n. unchanged id (apart id n) ∙ h.complete id a l n;
  }

  module _ (o : ℤ) (n : o ≢ minus_one) (b : Between me o m)
      (only : (id : ℤ) → Between me id m → id ≡ o) where
    others :
        (cs : List Contact)
        → Absent o cs
        → All (IsContact me before) cs
        → All (IsContact me after) cs
    others [] a h = tt
    others (c ∷ cs) (away, a) (k, h) = (kept c (λ z. away (only c.contact_id z)) k, others cs a h)

    raised_right :
        (cs : List Contact)
        → Distinct cs
        → All (IsContact me before) cs
        → All (IsContact me after) (raised o m.timestamp cs)
    unfolding raised
    raised_right [] d h = tt
    raised_right (c ∷ cs) (a, d) (k, h) = elim (Bool-cases (c.contact_id ==ℤ o)) [
      | inl hit ↦
          let e = (==ℤ_iff c.contact_id o).0 hit in
          rw hit (
            raised_one c (subst (λ id. Between me id m) (sym e) b) k.somebody k.last,
            others cs (subst (λ id. Absent id cs) e a) h,
          )
      | inr miss ↦
          rw miss
            (kept c (λ z. is_ne c.contact_id o miss (only c.contact_id z)) k, raised_right cs d h)
    ]

    pub known_step :
        (cs : List Contact)
        → ¬ (Absent o cs)
        → AreContacts me before cs
        → AreContacts me after (raised o m.timestamp cs)
    known_step cs here h = record {
      right = raised_right cs h.distinct h.right;
      distinct = raised-Distinct o m.timestamp cs h.distinct;
      complete = λ id a l k.
          let a' = Absent-raised id o m.timestamp cs a in
          unchanged id (λ z. here (subst (λ i. Absent i cs) (only id z) a'))
          ∙ h.complete id a' (omega (arith, l, length-raised o m.timestamp cs)) k;
    }

    pub new_step :
        (cs : List Contact)
        → Absent o cs
        → length cs < max_users
        → AreContacts me before cs
        → AreContacts me after
            (cs ++ raise m.timestamp (record { contact_id = o; last_time = pos 0 }) ∷ [])
    new_step cs a l h =
        let c : Contact = record { contact_id = o; last_time = pos 0 } in
        let first : IsLastTime (pos 0) (exchanged me o before) =
          subst (λ ns. IsLastTime (pos 0) ns) (sym (h.complete o a l n))
            (record { none_later = tt; not_negative = refl; reached = refl }) in
        record {
          right = snoc-All _ cs _ (others cs a h.right) (raised_one c b n first);
          distinct = snoc-Distinct cs _ h.distinct a;
          complete = λ id x k w.
              let (x', away) = All-snoc_parts _ cs _ x in
              unchanged id (λ z. away (sym (only id z)))
              ∙ h.complete id x' (omega (arith, k, length-append cs (c ∷ []))) w;
        }

    pub full_step :
        (cs : List Contact)
        → Absent o cs
        → max_users ≤ length cs
        → AreContacts me before cs
        → AreContacts me after cs
    full_step cs a l h = record {
      right = others cs a h.right;
      distinct = h.distinct;
      complete = λ id x k w. absurd (omega (arith, k, l));
    }
