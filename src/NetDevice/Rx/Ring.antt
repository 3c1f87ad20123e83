-- ===== src/NetDevice/Rx/Ring.antt =====
-- net_device/simple_netdev.c: the receive ring is a queue of at most 64 packets, the oldest at its
-- head.
use linux_network_lab.Base.{
  ℕ, suc, ◌+◌, ◌-◌, ◌%◌, ◌≤◌, ◌<◌, ◌≡◌, ◌≢◌, refl, sym, ap, ◌∙◌, Bool, true, false, List, [], ◌∷◌,
  Option, none, some, arith, length, get_elem?, set, length-set, get_or-set_self, get_or-set_ne,
}
use native.Mathlib.Decide.{ℕ_discrete}
use linux_network_lab.NetDevice.Device.{rx_ring_size, RxDesc, Priv, Device, rx_desc, zero_rx_desc}
use linux_network_lab.NetDevice.Rx.{next_rx, may_poll, packet, poll_one}

-- A descriptor that the NIC has filled with the packet, and one that it may fill.
pub record Filled (t : RxDesc) (f : Option (List ℕ)) : Type 0 where
  pub ours : t.owned_by_hw ≡ false
  pub full : t.finished ≡ true
  pub bytes : some (packet t) ≡ f

pub record Given (t : RxDesc) : Type 0 where
  pub theirs : t.owned_by_hw ≡ true
  pub empty : t.finished ≡ false

-- The packets wait from the head on; the NIC has all other descriptors.
pub record Waits (p : Priv) (q : List (List ℕ)) : Type 0 where
  pub whole : length p.rx_ring ≡ rx_ring_size
  pub head_in : p.rx_head < rx_ring_size
  pub room : length q ≤ rx_ring_size
  pub filled :
      (i k : ℕ)
      → k < length q
      → i ≡ (p.rx_head + k) % rx_ring_size
      → Filled (rx_desc p.rx_ring i) (get_elem? q k)
  pub given :
      (i : ℕ)
      → i < rx_ring_size
      → length q ≤ (i + rx_ring_size - p.rx_head) % rx_ring_size
      → Given (rx_desc p.rx_ring i)

pub rx_desc-set_ne :
    (ring : List RxDesc) (j i : ℕ) (v : RxDesc) → j ≢ i → rx_desc (set ring j v) i ≡ rx_desc ring i
rx_desc-set_ne ring j i v n = get_or-set_ne ring j i v zero_rx_desc n

pub may_poll_empty : (p : Priv) → Waits p [] → may_poll p ≡ false
unfolding may_poll
may_poll_empty p h = rw ((h.given p.rx_head h.head_in (omega arith)).theirs)

pub may_poll_filled :
    (p : Priv) (x : List ℕ) (q : List (List ℕ)) → Waits p (x ∷ q) → may_poll p ≡ true
unfolding may_poll
may_poll_filled p x q h =
    let f = h.filled p.rx_head 0 (omega arith) (omega (arith, h.head_in)) in rw (f.ours, f.full)

some-inj : {A : Type 0} {a b : A} → some a ≡ some b → a ≡ b
some-inj {a} e = ap (λ o. elim o [ none ↦ a | some x ↦ x ]) e

pub head_packet :
    (p : Priv) (x : List ℕ) (q : List (List ℕ))
    → Waits p (x ∷ q)
    → packet (rx_desc p.rx_ring p.rx_head) ≡ x
head_packet p x q h = some-inj (h.filled p.rx_head 0 (omega arith) (omega (arith, h.head_in))).bytes

-- Polling takes the oldest packet out.
module _ (has_skb : Bool) (d : Device) (x : List ℕ) (q : List (List ℕ))
    (h : Waits d.priv (x ∷ q)) where
  poll_one-Given :
      (i : ℕ)
      → i < rx_ring_size
      → length q ≤ (i + rx_ring_size - next_rx d.priv.rx_head) % rx_ring_size
      → Given (rx_desc (poll_one has_skb d).priv.rx_ring i)
  unfolding poll_one
  poll_one-Given i hi far = elim (ℕ_discrete d.priv.rx_head i) [
    | yes here ↦
        rw
          (
            sym here,
            get_or-set_self d.priv.rx_ring d.priv.rx_head
                (record (rx_desc d.priv.rx_ring d.priv.rx_head) {
                  len = 0;
                  finished = false;
                  owned_by_hw = true;
                })
                zero_rx_desc (omega (arith, h.whole, h.head_in)),
          )
          (record { theirs = refl; empty = refl })
    | no away ↦
        rw
          (rx_desc-set_ne d.priv.rx_ring d.priv.rx_head i
            (record (rx_desc d.priv.rx_ring d.priv.rx_head) {
              len = 0;
              finished = false;
              owned_by_hw = true;
            })
            away)
          (h.given i hi (omega (arith, h.head_in, h.room)))
  ]

  pub poll_one-Waits : Waits (poll_one has_skb d).priv q
  unfolding poll_one
  poll_one-Waits = record {
    whole = length-set d.priv.rx_ring d.priv.rx_head _ ∙ h.whole;
    head_in = omega arith;
    room = omega (arith, h.room);
    filled = λ i k hk e.
        rw
          (rx_desc-set_ne d.priv.rx_ring d.priv.rx_head i
            (record (rx_desc d.priv.rx_ring d.priv.rx_head) {
              len = 0;
              finished = false;
              owned_by_hw = true;
            })
            (omega (arith, h.head_in, h.room, hk, e)))
          (h.filled i (suc k) (omega (arith, hk)) (omega (arith, e, h.head_in)));
    given = poll_one-Given;
  }
