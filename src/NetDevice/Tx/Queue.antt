-- ===== src/NetDevice/Tx/Queue.antt =====
-- net_device/simple_netdev.c: the transmit ring is a queue of at most 63 skbs.
use linux_network_lab.Base.{
  ℕ, suc, ◌+◌, ◌-◌, ◌%◌, ◌≤◌, ◌<◌, ◌≡◌, ◌≢◌, refl, sym, ap, ◌∙◌, true, false, List, [], ◌∷◌, ◌++◌,
  none, arith, length, get_elem?, set, length-set, length-append, get_or-set_self, get_or-set_ne,
  get_elem?-append_old, get_elem?-append_last, ◌==◌, ◌↔◌, ==_iff,
}
use mathlib.Core.Bool.{false≢true}
use native.Mathlib.Decide.{dec_lt, ℕ_discrete}
use linux_network_lab.NetDevice.Device.{tx_ring_size, TxDesc, Priv, Device, tx_desc, zero_tx_desc}
use linux_network_lab.NetDevice.Tx.{
  next_tx, filled_desc, tx_ring_full, queue_skb, drop_skb, skbs, clean_one,
}

-- The ring holds the skbs `q`, the oldest at `tx_clean`, and no others; one place stays empty.
pub record Holds (p : Priv) (q : List ℕ) : Type 0 where
  pub whole : length p.tx_ring ≡ tx_ring_size
  pub clean_in : p.tx_clean < tx_ring_size
  pub room : length q < tx_ring_size
  pub head_at : p.tx_head ≡ (p.tx_clean + length q) % tx_ring_size
  pub held :
      (k : ℕ)
      → k < length q
      → (tx_desc p.tx_ring ((p.tx_clean + k) % tx_ring_size)).skb ≡ get_elem? q k
  pub vacant :
      (i : ℕ)
      → i < tx_ring_size
      → length q ≤ (i + tx_ring_size - p.tx_clean) % tx_ring_size
      → (tx_desc p.tx_ring i).skb ≡ none

module _ {p : Priv} {q : List ℕ} (h : Holds p q) where
  -- The ring counts as full when it holds 63.
  pub full_iff : (tx_ring_full p ≡ true) ↔ (length q ≡ 63)
  unfolding tx_ring_full
  full_iff = (
    λ e.
        let e' : next_tx p.tx_head ≡ p.tx_clean = ground arith in
        omega (arith, h.head_at, h.clean_in, h.room, e'),
    λ e. (==_iff _ _).1 (omega (arith, h.head_at, h.clean_in, e)),
  )

  pub not_full : tx_ring_full p ≡ false → length q < 63
  not_full e = elim (dec_lt (length q) 63) [
    | yes l ↦ l
    | no l ↦ absurd (false≢true (sym e ∙ full_iff.1 (omega (arith, h.room, l))))
  ]

  head_in : p.tx_head < tx_ring_size
  head_in = omega (arith, h.head_at)

-- A write elsewhere leaves a descriptor alone.
pub tx_desc-set_ne :
    (ring : List TxDesc) (j i : ℕ) (v : TxDesc) → j ≢ i → tx_desc (set ring j v) i ≡ tx_desc ring i
tx_desc-set_ne ring j i v n = get_or-set_ne ring j i v zero_tx_desc n

tx_desc-set_self :
    (ring : List TxDesc) (j : ℕ) (v : TxDesc) → j < length ring → tx_desc (set ring j v) j ≡ v
tx_desc-set_self ring j v l = get_or-set_self ring j v zero_tx_desc l

-- The head takes the skb in.
module _ (d : Device) (q : List ℕ) (h : Holds d.priv q) (skb len address : ℕ) where
  held_new :
      (i k : ℕ)
      → k < length (q ++ skb ∷ [])
      → i ≡ (d.priv.tx_clean + k) % tx_ring_size
      → (tx_desc (set d.priv.tx_ring d.priv.tx_head (filled_desc skb len address)) i).skb
        ≡ get_elem? (q ++ skb ∷ []) k
  held_new i k hk e = elim (dec_lt k (length q)) [
    | yes old ↦
        ap (λ x. x.skb)
          (tx_desc-set_ne d.priv.tx_ring d.priv.tx_head i (filled_desc skb len address)
            (omega (arith, h.head_at, h.room, old, e)))
        ∙ ap (λ j. (tx_desc d.priv.tx_ring j).skb) e
        ∙ h.held k old
        ∙ sym (get_elem?-append_old q (skb ∷ []) k old)
    | no last ↦
        let n : k ≡ length q = omega (arith, hk, last, length-append q (skb ∷ [])) in
        let j : i ≡ d.priv.tx_head = omega (arith, e, n, h.head_at) in
        rw j (
          ap (λ x. x.skb)
            (tx_desc-set_self d.priv.tx_ring d.priv.tx_head (filled_desc skb len address)
              (omega (arith, h.whole, h.head_at)))
          ∙ sym (get_elem?-append_last q skb k n))
  ]

  pub queue_skb-Holds : length q < 63 → Holds (queue_skb skb len address d).priv (q ++ skb ∷ [])
  unfolding queue_skb
  queue_skb-Holds l = record {
    whole = length-set d.priv.tx_ring d.priv.tx_head (filled_desc skb len address) ∙ h.whole;
    clean_in = h.clean_in;
    room = omega (arith, l, length-append q (skb ∷ []));
    head_at = omega (arith, h.head_at, h.clean_in, length-append q (skb ∷ []));
    held = λ k hk. held_new _ k hk refl;
    vacant = λ i hi v.
        ap (λ x. x.skb)
          (tx_desc-set_ne d.priv.tx_ring d.priv.tx_head i (filled_desc skb len address)
            (omega (arith, h.head_at, h.clean_in, h.room, v, hi, length-append q (skb ∷ []))))
        ∙ h.vacant i hi (omega (arith, v, length-append q (skb ∷ [])));
  }

  pub drop_skb-Holds : Holds (drop_skb skb address d).priv q
  unfolding drop_skb
  drop_skb-Holds = record {
    whole = length-set d.priv.tx_ring d.priv.tx_head _ ∙ h.whole;
    clean_in = h.clean_in;
    room = h.room;
    head_at = h.head_at;
    held = λ k hk.
        ap (λ x. x.skb)
          (tx_desc-set_ne d.priv.tx_ring d.priv.tx_head ((d.priv.tx_clean + k) % tx_ring_size) _
            (omega (arith, h.head_at, h.room, hk)))
        ∙ h.held k hk;
    vacant = λ i hi v. elim (ℕ_discrete d.priv.tx_head i) [
      | yes e ↦ rw (← e) (
          ap (λ x. x.skb)
            (tx_desc-set_self d.priv.tx_ring d.priv.tx_head _ (omega (arith, h.whole, h.head_at)))
          ∙ h.vacant d.priv.tx_head (omega (arith, h.head_at))
              (omega (arith, h.head_at, h.clean_in, h.room)))
      | no n ↦
          ap (λ x. x.skb) (tx_desc-set_ne d.priv.tx_ring d.priv.tx_head i _ n) ∙ h.vacant i hi v
    ];
  }

-- The oldest skb leaves.
module _ (d : Device) (x : ℕ) (q : List ℕ) (h : Holds d.priv (x ∷ q)) where
  pub clean_one-Holds : Holds (clean_one d).priv q
  unfolding clean_one
  clean_one-Holds = record {
    whole = length-set d.priv.tx_ring d.priv.tx_clean _ ∙ h.whole;
    clean_in = omega arith;
    room = omega (arith, h.room);
    head_at = omega (arith, h.head_at, h.clean_in);
    held = λ k hk.
        ap (λ y. y.skb)
          (tx_desc-set_ne d.priv.tx_ring d.priv.tx_clean
            ((next_tx d.priv.tx_clean + k) % tx_ring_size) _
            (omega (arith, h.clean_in, h.room, hk)))
        ∙ ap (λ j. (tx_desc d.priv.tx_ring j).skb) (omega (arith, h.clean_in))
        ∙ h.held (suc k) (omega (arith, hk));
    vacant = λ i hi v. elim (ℕ_discrete d.priv.tx_clean i) [
      | yes e ↦ rw (← e) (
          ap (λ y. y.skb)
            (tx_desc-set_self d.priv.tx_ring d.priv.tx_clean _
              (omega (arith, h.whole, h.clean_in))))
      | no n ↦
          ap (λ y. y.skb) (tx_desc-set_ne d.priv.tx_ring d.priv.tx_clean i _ n)
          ∙ h.vacant i hi (omega (arith, n, v, hi, h.clean_in))
    ];
  }

  pub oldest : skbs (tx_desc d.priv.tx_ring d.priv.tx_clean).skb ≡ x ∷ []
  oldest = ap skbs (
      ap (λ j. (tx_desc d.priv.tx_ring j).skb) (omega (arith, h.clean_in)) ∙ h.held 0 (omega arith))

  pub in_use : (d.priv.tx_clean == d.priv.tx_head) ≡ false
  in_use = ground (arith, h.head_at, h.clean_in, h.room)
