-- ===== src/Chat/Messages/Contacts.antt =====
-- chat/server.c: the list of conversations against the messages in the file.
use linux_network_lab.Base.{
  ℕ, zero, suc, ◌≤◌, ◌≡◌, ◌≢◌, ◌∙◌, refl, sym, ap, subst, true, false, inl, inr, List, [], ◌∷◌,
  arith, length, All, if◌then◌else◌, ℤ, ltℤ, Bool-cases,
}
use linux_network_lab.Chat.Files.{read_lines}
use linux_network_lab.Chat.Messages.Stored.{IsStorable, print_messages, read_lines-print_messages}
use linux_network_lab.Chat.Messages.Noted.{
  ltℤ_irrefl, not_lt_trans, lt_not_lt, IsContact, Distinct, AreContacts,
}
use linux_network_lab.Chat.Messages.Reading.{from_none-AreContacts}
use linux_network_lab.Chat.Messages.{
  HistoryMessage, Contact, exchange, sort_contacts, note_lines, conversations,
}

-- `y` is not later than `x`.
abbrev pub NotLater : Contact → Contact → Type 0
NotLater x y = ltℤ x.last_time y.last_time ≡ false

-- No contact stands behind one of an earlier time.
pub Sorted : List Contact → Type 0
Sorted [] = Unit
Sorted (x ∷ xs) = All (NotLater x) xs × Sorted xs

exchange_later :
    (x y : Contact) (ys : List Contact)
    → ltℤ x.last_time y.last_time ≡ true
    → exchange x (y ∷ ys) ≡ ((exchange y ys).0, x ∷ (exchange y ys).1)
unfolding exchange
exchange_later x y ys e = rw e refl

exchange_not_later :
    (x y : Contact) (ys : List Contact)
    → ltℤ x.last_time y.last_time ≡ false
    → exchange x (y ∷ ys) ≡ ((exchange x ys).0, y ∷ (exchange x ys).1)
unfolding exchange
exchange_not_later x y ys e = rw e refl

abbrev Latest : Contact → Contact × List Contact → Type 0
Latest x r = NotLater r.0 x × All (NotLater r.0) r.1

-- What comes out is of the latest time.
exchange-Latest : (x : Contact) (ys : List Contact) → Latest x (exchange x ys)
unfolding exchange
exchange-Latest x [] = (ltℤ_irrefl x.last_time, tt)
exchange-Latest x (y ∷ ys) = elim (Bool-cases (ltℤ x.last_time y.last_time)) [
  | inl later ↦
      let (start, others) = exchange-Latest y ys in
      let before =
        not_lt_trans (exchange y ys).0.last_time y.last_time x.last_time start
          (lt_not_lt x.last_time y.last_time later) in
      subst (Latest x) (sym (exchange_later x y ys later)) (before, (before, others))
  | inr not_later ↦
      let (start, others) = exchange-Latest x ys in
      subst (Latest x) (sym (exchange_not_later x y ys not_later)) (
        start,
        (not_lt_trans (exchange x ys).0.last_time x.last_time y.last_time start not_later, others),
      )
]

exchange-All :
    (P : Contact → Type 0) (x : Contact) (ys : List Contact)
    → P x
    → All P ys
    → P (exchange x ys).0 × All P (exchange x ys).1
unfolding exchange
exchange-All P x [] p h = (p, tt)
exchange-All P x (y ∷ ys) p (q, h) = elim (Bool-cases (ltℤ x.last_time y.last_time)) [
  | inl later ↦ let r = exchange-All P y ys q h in rw (later, exchange) (r.0, (p, r.1))
  | inr not_later ↦ let r = exchange-All P x ys p h in rw (not_later, exchange) (r.0, (q, r.1))
]

length-exchange : (x : Contact) (ys : List Contact) → length (exchange x ys).1 ≡ length ys
unfolding exchange
length-exchange x [] = refl
length-exchange x (y ∷ ys) =
    ap suc (length-exchange (if ltℤ x.last_time y.last_time then y else x) ys)

sort_contacts-All :
    (P : Contact → Type 0) (left : ℕ) (cs : List Contact) → All P cs → All P (sort_contacts left cs)
unfolding sort_contacts
sort_contacts-All P zero cs h = h
sort_contacts-All P (suc left) [] h = h
sort_contacts-All P (suc left) (x ∷ xs) (p, h) =
    let r = exchange-All P x xs p h in (r.0, sort_contacts-All P left (exchange x xs).1 r.1)

-- The other way round.
All-exchange :
    (P : Contact → Type 0) (x : Contact) (ys : List Contact)
    → P (exchange x ys).0
    → All P (exchange x ys).1
    → P x × All P ys
unfolding exchange
All-exchange P x [] p h = (p, tt)
All-exchange P x (y ∷ ys) p h = elim (Bool-cases (ltℤ x.last_time y.last_time)) [
  | inl later ↦
      let h' : P x × All P (exchange y ys).1 = rw (later, exchange) at h in
      let p' : P (exchange y ys).0 = rw (later, exchange) at p in
      (h'.0, All-exchange P y ys p' h'.1)
  | inr not_later ↦
      let h' : P y × All P (exchange x ys).1 = rw (not_later, exchange) at h in
      let p' : P (exchange x ys).0 = rw (not_later, exchange) at p in
      let r = All-exchange P x ys p' h'.1 in (r.0, (h'.0, r.1))
]

abbrev DistinctPair : Contact × List Contact → Type 0
DistinctPair r = Distinct (r.0 ∷ r.1)

exchange-Distinct :
    (x : Contact) (ys : List Contact) → Distinct (x ∷ ys) → DistinctPair (exchange x ys)
unfolding exchange
exchange-Distinct x [] d = d
exchange-Distinct x (y ∷ ys) ((y_x, ys_x), (ys_y, d)) =
    let x_y : x.contact_id ≢ y.contact_id = λ e. y_x (sym e) in
    elim (Bool-cases (ltℤ x.last_time y.last_time)) [
      | inl later ↦
          let (start, rest) = exchange-Distinct y ys (ys_y, d) in
          let (z, zs) = exchange-All (λ c. c.contact_id ≢ x.contact_id) y ys y_x ys_x in
          subst DistinctPair (sym (exchange_later x y ys later))
            (((λ e. z (sym e)), start), (zs, rest))
      | inr not_later ↦
          let (start, rest) = exchange-Distinct x ys (ys_x, d) in
          let (z, zs) = exchange-All (λ c. c.contact_id ≢ y.contact_id) x ys x_y ys_y in
          subst DistinctPair (sym (exchange_not_later x y ys not_later))
            (((λ e. z (sym e)), start), (zs, rest))
    ]

All-sort_contacts :
    (P : Contact → Type 0) (left : ℕ) (cs : List Contact) → All P (sort_contacts left cs) → All P cs
unfolding sort_contacts
All-sort_contacts P zero cs h = h
All-sort_contacts P (suc left) [] h = h
All-sort_contacts P (suc left) (x ∷ xs) (p, h) =
    All-exchange P x xs p (All-sort_contacts P left (exchange x xs).1 h)

sort_contacts-Distinct :
    (left : ℕ) (cs : List Contact) → Distinct cs → Distinct (sort_contacts left cs)
unfolding sort_contacts
sort_contacts-Distinct zero cs d = d
sort_contacts-Distinct (suc left) [] d = d
sort_contacts-Distinct (suc left) (x ∷ xs) d =
    let xs' = (exchange x xs).1 in
    let (start, rest) = exchange-Distinct x xs d in
    (
      sort_contacts-All (λ c. c.contact_id ≢ (exchange x xs).0.contact_id) left xs' start,
      sort_contacts-Distinct left xs' rest,
    )

length-sort_contacts : (left : ℕ) (cs : List Contact) → length (sort_contacts left cs) ≡ length cs
unfolding sort_contacts
length-sort_contacts zero cs = refl
length-sort_contacts (suc left) [] = refl
length-sort_contacts (suc left) (x ∷ xs) =
    ap suc (length-sort_contacts left (exchange x xs).1 ∙ length-exchange x xs)

sort_contacts-Sorted :
    (left : ℕ) (cs : List Contact) → length cs ≤ left → Sorted (sort_contacts left cs)
unfolding sort_contacts Sorted
sort_contacts-Sorted zero [] h = tt
sort_contacts-Sorted zero (x ∷ xs) h = elim h [ ]
sort_contacts-Sorted (suc left) [] h = tt
sort_contacts-Sorted (suc left) (x ∷ xs) h =
    let xs' = (exchange x xs).1 in
    (
      sort_contacts-All (NotLater (exchange x xs).0) left xs' (exchange-Latest x xs).1,
      sort_contacts-Sorted left xs' (omega (arith, h, length-exchange x xs)),
    )

sort_contacts-AreContacts :
    (me : ℤ) (ms : List HistoryMessage) (left : ℕ) (cs : List Contact)
    → AreContacts me ms cs
    → AreContacts me ms (sort_contacts left cs)
sort_contacts-AreContacts me ms left cs h = record {
  right = sort_contacts-All (IsContact me ms) left cs h.right;
  distinct = sort_contacts-Distinct left cs h.distinct;
  complete = λ id a l n.
      h.complete id (All-sort_contacts (λ c. c.contact_id ≢ id) left cs a)
        (omega (arith, l, length-sort_contacts left cs)) n;
}

-- Of a file that holds storable messages, the list of conversations names each user at most once,
-- and nobody with whom no message was exchanged; the time of each is that of the latest message
-- between the two, where times before 0 count as 0; none stands behind one of an earlier time; and
-- nobody with whom a message was exchanged is missing, as long as the list has fewer than 1000
-- entries. -1 is nobody's id.
pub conversations_lem :
    (me : ℤ) (ms : List HistoryMessage)
    → All IsStorable ms
    → Sorted (conversations me (print_messages ms))
      × AreContacts me ms (conversations me (print_messages ms))
unfolding conversations
conversations_lem me ms s =
    let lines = read_lines 1400 (print_messages ms) in
    let contacts = note_lines me [] lines in
    let noted : AreContacts me ms contacts =
      subst (λ ls. AreContacts me ms (note_lines me [] ls)) (sym (read_lines-print_messages ms s))
        (from_none-AreContacts me ms s) in
    (
      sort_contacts-Sorted (length contacts) contacts (omega arith),
      sort_contacts-AreContacts me ms (length contacts) contacts noted,
    )
