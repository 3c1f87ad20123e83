-- ===== src/NetDevice/Setup/Allocation.antt =====
-- net_device/simple_netdev.c: `my_alloc_rx_buffers` takes a buffer for each descriptor, or none.
use linux_network_lab.Base.{
  ℕ, zero, suc, ◌+◌, ◌<◌, ◌≡◌, ◌≢◌, refl, sym, ◌∙◌, ◌⊎◌, inl, inr, Bool, true, false, List, [], ◌∷◌,
  ◌++◌, Option, none, some, arith, length, set, length-set, get_or-set_self, get_or-set_ne,
  Bool-cases, ap,
}
use mathlib.Core.Bool.{false≢true}
use mathlib.Core.Option.{none-ne-some}
use native.Mathlib.Decide.{ℕ_discrete}
use linux_network_lab.NetDevice.Device.{rx_ring_size, RxDesc, rx_desc, zero_rx_desc}
use linux_network_lab.NetDevice.Tx.{DmaAnswer}
use linux_network_lab.NetDevice.Setup.{
  Resource, Machine, enomem, BufferAnswers, take_rx_buffer, with_rx_ring, rx_buffer, alloc_rx_loop,
}
use linux_network_lab.NetDevice.Setup.Balance.{take_rx_buffer-Balanced}
use linux_network_lab.NetDevice.Setup.Unwinding.{Cleared, Ring, Present, set-Cleared, unwind-Ring}

-- A round of the allocation writes at most one descriptor, and leaves it no buffer if it fails.
record Round (m m' : Machine) (i : ℕ) (goes_on : Bool) : Type 0 where
  pub same_length : length m'.device.priv.rx_ring ≡ length m.device.priv.rx_ring
  pub tx : m'.device.priv.tx_ring ≡ m.device.priv.tx_ring
  pub rx_dma : m'.device.priv.rx_ring_dma ≡ m.device.priv.rx_ring_dma
  pub tx_dma : m'.device.priv.tx_ring_dma ≡ m.device.priv.tx_ring_dma
  pub beyond : Cleared m'.device.priv.rx_ring (suc i) rx_ring_size
  pub others : (j : ℕ) → j ≢ i → rx_desc m'.device.priv.rx_ring j ≡ rx_desc m.device.priv.rx_ring j
  pub filled : goes_on ≡ true → (rx_desc m'.device.priv.rx_ring i).buf ≢ none
  pub failed : goes_on ≡ false → Cleared m'.device.priv.rx_ring i rx_ring_size

set_beyond :
    (ring : List RxDesc) (i : ℕ) (v : RxDesc)
    → Cleared ring i rx_ring_size
    → Cleared (set ring i v) (suc i) rx_ring_size
set_beyond ring i v c = record {
  cleared = λ j p q.
      rw (get_or-set_ne ring i j v zero_rx_desc (omega (arith, p)))
        (c.cleared j (omega (arith, p)) q);
}

-- The round that fails.
emptied_Round :
    (m : Machine) (taken given : List Resource) (address i : ℕ)
    → i < length m.device.priv.rx_ring
    → Cleared m.device.priv.rx_ring i rx_ring_size
    → let v = record (rx_desc m.device.priv.rx_ring i) { buf = none; dma_addr = address } in
      Round m
        (record (with_rx_ring (set m.device.priv.rx_ring i v) m) {
          acquired = taken;
          released = given;
        })
        i
        false
emptied_Round m taken given address i l c =
    let ring = m.device.priv.rx_ring in
    let v = record (rx_desc ring i) { buf = none; dma_addr = address } in
    record {
      same_length = length-set ring i v;
      tx = refl;
      rx_dma = refl;
      tx_dma = refl;
      beyond = set_beyond ring i v c;
      others = λ j n. get_or-set_ne ring i j v zero_rx_desc (λ e. n (sym e));
      filled = λ e. absurd (false≢true e);
      failed =
          λ e. set-Cleared ring i i rx_ring_size v l refl c i rx_ring_size (λ j p q away. (p, q));
    }

take-Round :
    (k : Option ℕ) (a : DmaAnswer) (i : ℕ) (m : Machine)
    → i < length m.device.priv.rx_ring
    → Cleared m.device.priv.rx_ring i rx_ring_size
    → let (goes_on, m') = take_rx_buffer k a i m in Round m m' i goes_on
unfolding take_rx_buffer
take-Round none a i m l c =
    emptied_Round m m.acquired m.released (rx_desc m.device.priv.rx_ring i).dma_addr i l c
take-Round (some k) a i m l c =
    let ring = m.device.priv.rx_ring in
    let v = record (rx_desc ring i) {
      buf = some k;
      dma_addr = a.address;
      len = 0;
      finished = false;
      owned_by_hw = true;
    } in
    elim (Bool-cases a.mapped) [
      | inl ok ↦ rw ok (record {
        same_length = length-set ring i v;
        tx = refl;
        rx_dma = refl;
        tx_dma = refl;
        beyond = set_beyond ring i v c;
        others = λ j n. get_or-set_ne ring i j v zero_rx_desc (λ e. n (sym e));
        filled = λ e h.
            none-ne-some k (sym h ∙ ap (λ t. t.buf) (get_or-set_self ring i v zero_rx_desc l));
        failed = λ e. absurd (false≢true (sym e));
      })
      | inr refused ↦ rw refused (
          emptied_Round m (m.acquired ++ rx_buffer k ∷ []) (m.released ++ rx_buffer k ∷ [])
            a.address i l c)
    ]

same-Present :
    (i : ℕ) (m m' : Machine) (goes_on : Bool)
    → Round m m' i goes_on
    → Present m.device.priv.rx_ring i
    → Present m'.device.priv.rx_ring i
same-Present i m m' goes_on o p = record {
  present = λ j hj. rw (o.others j (omega (arith, hj))) (p.present j hj);
}

extend-Present :
    (ring : List RxDesc) (i : ℕ)
    → Present ring i
    → (rx_desc ring i).buf ≢ none
    → Present ring (suc i)
extend-Present ring i p h = record {
  present = λ j hj. elim (ℕ_discrete i j) [
    | yes here ↦ rw (sym here) h
    | no away ↦ p.present j (omega (arith, hj, away))
  ];
}

take-Ring :
    (k : Option ℕ) (a : DmaAnswer) (i : ℕ) (m0 m : Machine) (rest : List Resource)
    → i < rx_ring_size
    → Ring m0 m rest
    → Cleared m.device.priv.rx_ring i rx_ring_size
    → Ring m0 (take_rx_buffer k a i m).1 rest
take-Ring k a i m0 m rest l r c =
    let l' : i < length m.device.priv.rx_ring = omega (arith, l, r.whole) in
    let o = take-Round k a i m l' c in
    record {
      whole = o.same_length ∙ r.whole;
      balanced = take_rx_buffer-Balanced k a i m rest l' (c.cleared i (omega arith) l) r.balanced;
      same_tx = o.tx ∙ r.same_tx;
      same_rx_dma = o.rx_dma ∙ r.same_rx_dma;
      same_tx_dma = o.tx_dma ∙ r.same_tx_dma;
    }

-- The loop either ends with a buffer for each descriptor, or has given back all that it took.
pub alloc_loop-Ring :
    (a : BufferAnswers) (left i : ℕ) (m0 m : Machine) (rest : List Resource)
    → left + i ≡ rx_ring_size
    → Ring m0 m rest
    → Present m.device.priv.rx_ring i
    → Cleared m.device.priv.rx_ring i rx_ring_size
    → let (r, m') = alloc_rx_loop a left i m in
      Ring m0 m' rest
      × (((r ≡ none) × Present m'.device.priv.rx_ring rx_ring_size)
          ⊎ ((r ≡ some enomem) × Cleared m'.device.priv.rx_ring 0 rx_ring_size))
unfolding alloc_rx_loop
alloc_loop-Ring a zero i m0 m rest e r p c =
    (r, inl (refl, record { present = λ j hj. p.present j (omega (arith, hj, e)) }))
alloc_loop-Ring a (suc left) i m0 m rest e r p c =
    let (goes_on, m') = take_rx_buffer (a.kmalloc i) (a.map_rx i) i m in
    let l : i < rx_ring_size = omega (arith, e) in
    let r' = take-Ring (a.kmalloc i) (a.map_rx i) i m0 m rest l r c in
    let o = take-Round (a.kmalloc i) (a.map_rx i) i m (omega (arith, l, r.whole)) c in
    let below = same-Present i m m' goes_on o p in
    elim (Bool-cases goes_on) [
      | inl on ↦
          rw (on, alloc_rx_loop)
            (alloc_loop-Ring a left (suc i) m0 m' rest (omega (arith, e)) r'
              (extend-Present m'.device.priv.rx_ring i below (o.filled on)) o.beyond)
      | inr stops ↦
          let u = unwind-Ring i m0 m' rest (omega (arith, l)) r' below (o.failed stops) in
          rw (stops, alloc_rx_loop) (u.0, inr (refl, u.1))
    ]
