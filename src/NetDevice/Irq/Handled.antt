-- ===== src/NetDevice/Irq/Handled.antt =====
-- net_device/simple_netdev.c: what `my_irq_handler` answers and leaves, and which functions keep the
-- interrupt mask.
use linux_network_lab.Base.{
  ℕ, zero, suc, ◌≡◌, refl, sym, ap, ◌∙◌, inl, inr, Bool, true, false, not, ◌&&◌, ◌||◌,
  if◌then◌else◌, Bool-cases,
}
use mathlib.Core.Bool.{false≢true}
use linux_network_lab.NetDevice.Device.{Irqs, Device, tx_ring_size}
use linux_network_lab.NetDevice.Tx.{
  DmaAnswer, start_xmit, queue_skb, drop_skb, tx_ring_full, may_clean, clean_one, clean_loop, wake,
  tx_clean,
}
use linux_network_lab.NetDevice.Rx.{poll_one}
use linux_network_lab.NetDevice.Irq.{
  irq_none, irq_handled, schedule_poll, rx_event, tx_event, acknowledge, irq_handler,
}

-- A function keeps the mask and the schedule.
pub record Same (d d' : Device) : Type 0 where
  pub mask : d'.regs.irq_mask ≡ d.regs.irq_mask
  pub napi : d'.napi_scheduled ≡ d.napi_scheduled
  pub status : d'.regs.irq_status ≡ d.regs.irq_status

Same-refl : (d : Device) → Same d d
Same-refl d = record { mask = refl; napi = refl; status = refl }

clean_loop-Same : (rounds : ℕ) (d : Device) → Same d (clean_loop rounds d)
unfolding clean_loop clean_one
clean_loop-Same zero d = Same-refl d
clean_loop-Same (suc rounds) d = elim (Bool-cases (may_clean d.priv)) [
  | inl more ↦
      let s = clean_loop-Same rounds (clean_one d) in
      rw (more, clean_loop) (record { mask = s.mask; napi = s.napi; status = s.status })
  | inr ends ↦ rw (ends, clean_loop) (Same-refl d)
]

tx_clean-Same : (d : Device) → Same d (tx_clean d)
unfolding tx_clean wake
tx_clean-Same d =
    let d' = clean_loop tx_ring_size d in
    let s = clean_loop-Same tx_ring_size d in
    elim (Bool-cases (d'.queue_stopped && not (tx_ring_full d'.priv))) [
      | inl wakes ↦ rw wakes (record { mask = s.mask; napi = s.napi; status = s.status })
      | inr stays ↦ rw stays s
    ]

pub start_xmit-Same : (skb len : ℕ) (a : DmaAnswer) (d : Device) → Same d (start_xmit skb len a d).1
unfolding start_xmit queue_skb drop_skb
start_xmit-Same skb len a d = elim (Bool-cases (tx_ring_full d.priv)) [
  | inl full ↦ rw full (record { mask = refl; napi = refl; status = refl })
  | inr room ↦ elim (Bool-cases a.mapped) [
    | inl ok ↦ rw (room, ok) (record { mask = refl; napi = refl; status = refl })
    | inr failed ↦ rw (room, failed) (record { mask = refl; napi = refl; status = refl })
  ]
]

pub tx_event-Same : (status : Irqs) (d : Device) → Same d (tx_event status d)
unfolding tx_event
tx_event-Same status d = elim (Bool-cases status.tx) [
  | inl tx ↦ rw tx (tx_clean-Same d)
  | inr no_tx ↦ rw no_tx (Same-refl d)
]

pub poll_one-Same : (has_skb : Bool) (d : Device) → Same d (poll_one has_skb d)
unfolding poll_one
poll_one-Same has_skb d = record { mask = refl; napi = refl; status = refl }

rx_event_rest :
    (status : Irqs) (d : Device)
    → ((rx_event status d).regs.irq_status ≡ d.regs.irq_status)
      × ((rx_event status d).napi_scheduled ≡ (status.rx || d.napi_scheduled))
unfolding rx_event schedule_poll
rx_event_rest status d = elim (Bool-cases status.rx) [
  | inl rx ↦ rw rx (refl, refl)
  | inr no_rx ↦ rw no_rx (refl, refl)
]

and_not : (b : Bool) → (b && not b) ≡ false
and_not true = refl
and_not false = refl

or_false : (a b : Bool) → (a || b) ≡ false → (a ≡ false) × (b ≡ false)
or_false true b e = absurd (false≢true (sym e))
or_false false b e = (refl, e)

-- The handler claims an interrupt exactly when the NIC reports an event, and then clears both bits;
-- an RX event puts NAPI on the schedule.
pub irq_handler_lem :
    (d : Device)
    → let (r, d') = irq_handler d in
      let status = d.regs.irq_status in
      (r ≡ (if status.rx || status.tx then irq_handled else irq_none))
      × (d'.regs.irq_status.rx ≡ false)
      × (d'.regs.irq_status.tx ≡ false)
      × (d'.napi_scheduled ≡ (status.rx || d.napi_scheduled))
unfolding irq_handler acknowledge
irq_handler_lem d =
    let status = d.regs.irq_status in
    let r = rx_event_rest status d in
    let s = tx_event-Same status (rx_event status d) in
    elim (Bool-cases (status.rx || status.tx)) [
      | inl event ↦ rw event (
        refl,
        ap (λ i. i.rx && not status.rx) (s.status ∙ r.0) ∙ and_not status.rx,
        ap (λ i. i.tx && not status.tx) (s.status ∙ r.0) ∙ and_not status.tx,
        s.napi ∙ r.1,
      )
      | inr no_event ↦
          let (no_rx, no_tx) = or_false status.rx status.tx no_event in
          rw no_event (refl, no_rx, no_tx, ap (λ b. b || d.napi_scheduled) (sym no_rx))
    ]
