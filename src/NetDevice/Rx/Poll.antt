-- ===== src/NetDevice/Rx/Poll.antt =====
-- net_device/simple_netdev.c: `my_poll` against the queue of packets.
use linux_network_lab.Base.{
  ℕ, zero, suc, ◌+◌, ◌%◌, min, ◌≡◌, refl, sym, ap, ◌∙◌, inl, inr, Bool, true, not, ◌&&◌, List, [],
  ◌∷◌, ◌++◌, append-nil, append_assoc, arith, length, take, drop, ltb, if◌then◌else◌, Bool-cases,
}
use linux_network_lab.NetDevice.Device.{rx_ring_size, Device}
use linux_network_lab.NetDevice.Rx.{both_irqs, poll_one, poll_loop, finish_poll, poll}
use linux_network_lab.NetDevice.Rx.Ring.{
  Waits, may_poll_empty, may_poll_filled, head_packet, poll_one-Waits,
}

-- The packets that find an skb, the first of them the packet number `n` of the poll.
pub kept : (ℕ → Bool) → ℕ → List (List ℕ) → List (List ℕ)
kept alloc n [] = []
kept alloc n (x ∷ q) = (if alloc n then x ∷ [] else []) ++ kept alloc (suc n) q

pub kept_all : (n : ℕ) (q : List (List ℕ)) → kept (λ k. true) n q ≡ q
unfolding kept
kept_all n [] = refl
kept_all n (x ∷ q) = ap (◌∷◌ x) (kept_all (suc n) q)

-- What `n` rounds of the loop have done, the first of them with packet number `work_done`.
record Polled (alloc : ℕ → Bool) (work_done : ℕ) (d d' : Device) (q : List (List ℕ)) (n : ℕ)
    : Type 0 where
  pub left : Waits d'.priv (drop n q)
  pub up : d'.handed_up ≡ d.handed_up ++ kept alloc work_done (take n q)
  pub moved : d'.priv.rx_head ≡ (d.priv.rx_head + n) % rx_ring_size
  pub same_mask : d'.regs.irq_mask ≡ d.regs.irq_mask
  pub same_napi : d'.napi_scheduled ≡ d.napi_scheduled
  pub tail_at : d.regs.rx_tail ≡ d.priv.rx_head → d'.regs.rx_tail ≡ d'.priv.rx_head

nothing_Polled :
    (alloc : ℕ → Bool) (w : ℕ) (d : Device) (q : List (List ℕ))
    → Waits d.priv q
    → Polled alloc w d d q 0
unfolding kept
nothing_Polled alloc w d q h = record {
  left = h;
  up = sym (append-nil d.handed_up);
  moved = omega (arith, h.head_in);
  same_mask = refl;
  same_napi = refl;
  tail_at = λ e. e;
}

step_Polled :
    (alloc : ℕ → Bool) (w : ℕ) (d d' : Device) (x : List ℕ) (q : List (List ℕ)) (n : ℕ)
    → Waits d.priv (x ∷ q)
    → Polled alloc (suc w) (poll_one (alloc w) d) d' q n
    → Polled alloc w d d' (x ∷ q) (suc n)
unfolding poll_one kept
step_Polled alloc w d d' x q n h c = record {
  left = c.left;
  up =
      c.up
      ∙ ap (λ f. (d.handed_up ++ (if alloc w then f ∷ [] else [])) ++ kept alloc (suc w) (take n q))
          (head_packet d.priv x q h)
      ∙ append_assoc d.handed_up (if alloc w then x ∷ [] else []) (kept alloc (suc w) (take n q));
  moved = omega (arith, c.moved, h.head_in);
  same_mask = c.same_mask;
  same_napi = c.same_napi;
  tail_at = λ e. c.tail_at refl;
}

poll_loop-Polled :
    (alloc : ℕ → Bool) (left w n : ℕ) (d : Device) (q : List (List ℕ))
    → Waits d.priv q
    → n ≡ min left (length q)
    → let (w', d') = poll_loop alloc left w d in (w' ≡ w + n) × Polled alloc w d d' q n
unfolding poll_loop
poll_loop-Polled alloc zero w zero d q h e = (omega arith, nothing_Polled alloc w d q h)
poll_loop-Polled alloc zero w (suc n) d q h e = absurd (omega (arith, e))
poll_loop-Polled alloc (suc left) w zero d [] h e =
    rw (may_poll_empty d.priv h, poll_loop) (omega arith, nothing_Polled alloc w d [] h)
poll_loop-Polled alloc (suc left) w (suc n) d [] h e = absurd (omega (arith, e))
poll_loop-Polled alloc (suc left) w zero d (x ∷ q) h e = absurd (omega (arith, e))
poll_loop-Polled alloc (suc left) w (suc n) d (x ∷ q) h e =
    let r =
      poll_loop-Polled alloc left (suc w) n (poll_one (alloc w) d) q
        (poll_one-Waits (alloc w) d x q h) (omega (arith, e)) in
    rw (may_poll_filled d.priv x q h, poll_loop)
      (omega (arith, r.0), step_Polled alloc w d _ x q n h r.1)

-- `my_poll` takes the oldest packets, as many as wait and the budget allows, and passes those up, in
-- order, that it gets an skb for. With budget left, and NAPI completed, both interrupts are enabled
-- and NAPI is off the schedule; otherwise mask and schedule stay. The head moves on by as
-- many descriptors, and the tail register with it.
pub poll_lem :
    (alloc : ℕ → Bool) (budget : ℕ) (completes : Bool) (d : Device) (q : List (List ℕ))
    → Waits d.priv q
    → d.regs.rx_tail ≡ d.priv.rx_head
    → let (work_done, d') = poll alloc budget completes d in
      let n = min budget (length q) in
      let ends = ltb n budget && completes in
      (work_done ≡ n)
      × Waits d'.priv (drop n q)
      × (d'.handed_up ≡ d.handed_up ++ kept alloc 0 (take n q))
      × (d'.regs.irq_mask ≡ (if ends then both_irqs else d.regs.irq_mask))
      × (d'.napi_scheduled ≡ (not ends && d.napi_scheduled))
      × (d'.regs.rx_tail ≡ d'.priv.rx_head)
      × (d'.priv.rx_head ≡ (d.priv.rx_head + n) % rx_ring_size)
unfolding poll finish_poll
poll_lem alloc budget completes d q h t =
    let n = min budget (length q) in
    let (e, c) = poll_loop-Polled alloc budget 0 n d q h refl in
    let e' : (poll_loop alloc budget 0 d).0 ≡ n = omega (arith, e) in
    elim (Bool-cases (ltb n budget && completes)) [
      | inl ends ↦ rw (e', ends) (refl, c.left, c.up, refl, refl, c.tail_at t, c.moved)
      | inr goes ↦
          rw (e', goes) (refl, c.left, c.up, c.same_mask, c.same_napi, c.tail_at t, c.moved)
    ]
