-- ===== src/NetDevice/Setup/Fresh.antt =====
-- net_device/simple_netdev.c: the rings as the allocation leaves them are empty queues.
use linux_network_lab.Base.{
  ℕ, zero, suc, ◌+◌, ◌<◌, ◌≡◌, refl, sym, ap, ◌∙◌, inl, inr, true, false, [], Option, none, some,
  arith, length, length-set, replicate, length-replicate, get_or-replicate, get_or-set_self,
  get_or-set_ne, Bool-cases,
}
use mathlib.Core.Bool.{false≢true}
use mathlib.Core.Option.{none-ne-some}
use native.Mathlib.Decide.{ℕ_discrete}
use linux_network_lab.NetDevice.Device.{
  rx_ring_size, tx_ring_size, Priv, rx_desc, tx_desc, zero_rx_desc, zero_tx_desc,
}
use linux_network_lab.NetDevice.Tx.{DmaAnswer}
use linux_network_lab.NetDevice.Tx.Queue.{Holds}
use linux_network_lab.NetDevice.Rx.Ring.{Given, Waits}
use linux_network_lab.NetDevice.Setup.{
  Machine, enomem, BufferAnswers, take_rx_buffer, alloc_rx_loop, alloc_rx_buffers,
}

-- A ring of zeros with both ends at its start holds no skb.
pub zeros-Holds :
    (p : Priv)
    → p.tx_ring ≡ replicate tx_ring_size zero_tx_desc
    → p.tx_head ≡ 0
    → p.tx_clean ≡ 0
    → Holds p []
zeros-Holds p e h c = record {
  whole = rw e (length-replicate tx_ring_size zero_tx_desc);
  clean_in = omega (arith, c);
  room = omega arith;
  head_at = omega (arith, h, c);
  held = λ k l. absurd (omega (arith, l));
  vacant = λ i hi far.
      ap (λ ring. (tx_desc ring i).skb) e
      ∙ ap (λ t. t.skb) (get_or-replicate tx_ring_size i zero_tx_desc zero_tx_desc hi);
}

-- The descriptors up to `i` belong to the NIC, in a ring whose head has not moved.
record Prepared (m m' : Machine) (i : ℕ) : Type 0 where
  pub whole : length m'.device.priv.rx_ring ≡ rx_ring_size
  pub same_head : m'.device.priv.rx_head ≡ m.device.priv.rx_head
  pub theirs : (j : ℕ) → j < i → Given (rx_desc m'.device.priv.rx_ring j)

take-Prepared :
    (k : Option ℕ) (a : DmaAnswer) (i : ℕ) (m0 m : Machine)
    → i < rx_ring_size
    → Prepared m0 m i
    → (take_rx_buffer k a i m).0 ≡ true
    → Prepared m0 (take_rx_buffer k a i m).1 (suc i)
unfolding take_rx_buffer
take-Prepared none a i m0 m l p e = absurd (false≢true e)
take-Prepared (some b) a i m0 m l p e =
    let ring = m.device.priv.rx_ring in
    let v = record (rx_desc ring i) {
      buf = some b;
      dma_addr = a.address;
      len = 0;
      finished = false;
      owned_by_hw = true;
    } in
    elim (Bool-cases a.mapped) [
      | inl ok ↦ rw ok (record {
        whole = length-set ring i v ∙ p.whole;
        same_head = p.same_head;
        theirs = λ j hj. elim (ℕ_discrete i j) [
          | yes here ↦
              rw (sym here, get_or-set_self ring i v zero_rx_desc (omega (arith, l, p.whole)))
                (record { theirs = refl; empty = refl })
          | no away ↦
              rw (get_or-set_ne ring i j v zero_rx_desc away) (p.theirs j (omega (arith, hj, away)))
        ];
      })
      | inr refused ↦ absurd (false≢true (rw refused at e))
    ]

alloc_loop-Prepared :
    (a : BufferAnswers) (left i : ℕ) (m0 m : Machine)
    → left + i ≡ rx_ring_size
    → Prepared m0 m i
    → (alloc_rx_loop a left i m).0 ≡ none
    → Prepared m0 (alloc_rx_loop a left i m).1 rx_ring_size
unfolding alloc_rx_loop
alloc_loop-Prepared a zero i m0 m e p ok = record {
  whole = p.whole;
  same_head = p.same_head;
  theirs = λ j hj. p.theirs j (omega (arith, hj, e));
}
alloc_loop-Prepared a (suc left) i m0 m e p ok =
    let (goes_on, m') = take_rx_buffer (a.kmalloc i) (a.map_rx i) i m in
    elim (Bool-cases goes_on) [
      | inl on ↦
          rw (on, alloc_rx_loop)
            (alloc_loop-Prepared a left (suc i) m0 m' (omega (arith, e))
              (take-Prepared (a.kmalloc i) (a.map_rx i) i m0 m (omega (arith, e)) p on)
              (rw (on, alloc_rx_loop) at ok))
      | inr stops ↦ absurd (none-ne-some enomem (sym (rw (stops, alloc_rx_loop) at ok)))
    ]

-- When `my_alloc_rx_buffers` succeeds, the NIC has every descriptor, and no packet waits.
pub alloc_rx_buffers-Waits :
    (a : BufferAnswers) (m : Machine)
    → length m.device.priv.rx_ring ≡ rx_ring_size
    → m.device.priv.rx_head ≡ 0
    → (alloc_rx_buffers a m).0 ≡ none
    → Waits (alloc_rx_buffers a m).1.device.priv []
unfolding alloc_rx_buffers
alloc_rx_buffers-Waits a m w h ok =
    let p =
      alloc_loop-Prepared a rx_ring_size 0 m m refl
        (record { whole = w; same_head = refl; theirs = λ j hj. absurd (omega (arith, hj)) }) ok in
    record {
      whole = p.whole;
      head_in = omega (arith, p.same_head, h);
      room = omega arith;
      filled = λ i k hk e. absurd (omega (arith, hk));
      given = λ i hi far. p.theirs i hi;
    }
