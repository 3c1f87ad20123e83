-- ===== src/NetDevice/Irq/Alive.antt =====
-- net_device/simple_netdev.c: the interrupt mask and NAPI's schedule while the interface is up,
-- where `my_irq_handler`, `my_poll` and `my_start_xmit` run at the same time.
use linux_network_lab.Base.{
  ℕ, zero, suc, ◌≡◌, refl, sym, ap, ◌∙◌, Bool, true, false, ◌&&◌, ◌||◌, List, [], ◌∷◌, arith, ltb,
  if◌then◌else◌,
}
use mathlib.Core.Bool.{true≢false}
use linux_network_lab.NetDevice.Device.{Irqs, Device}
use linux_network_lab.NetDevice.Tx.{DmaAnswer, start_xmit}
use linux_network_lab.NetDevice.Rx.{may_poll, poll_one, complete_napi, enable_irqs, finish_poll}
use linux_network_lab.NetDevice.Irq.Handled.{start_xmit-Same, poll_one-Same, tx_event-Same}
use linux_network_lab.NetDevice.Irq.{
  mask_rx, napi_schedule, schedule_poll, rx_event, tx_event, acknowledge, irq_handler, open_device,
}

suc_ne : {n : ℕ} → ¬ (suc n ≡ 0)
suc_ne e = omega (arith, e)

acknowledge-mask :
    (status : Irqs) (d : Device)
    → ((acknowledge status d).regs.irq_mask ≡ d.regs.irq_mask)
      × ((acknowledge status d).napi_scheduled ≡ d.napi_scheduled)
unfolding acknowledge
acknowledge-mask status d = (refl, refl)

-- The device while the interface is up, with the threads that stand between two of their accesses:
-- handlers between the write that masks RX and `napi_schedule`, and polls between
-- `napi_complete_done` and the write that enables both interrupts.
pub record UpState : Type 0 where
  pub device : Device
  pub handlers : ℕ
  pub polls : ℕ

-- What a thread, or the NIC, does next. A handler finds an RX event in the status that it read,
-- masks RX, puts NAPI on the schedule, cleans the TX ring for a TX event and acknowledges its
-- status; a poll takes one packet after the other, completes, and enables the interrupts; the stack
-- transmits. Between two steps any other thread may take one; cleaning the TX ring and transmitting,
-- which do not touch the mask, are one step each.
pub data UpOp : Type 0 where
  raise : Irqs → UpOp
  handler_masks handler_schedules : UpOp
  handler_cleans handler_acknowledges : Irqs → UpOp
  poll_takes : Bool → UpOp
  poll_completes poll_enables : UpOp
  xmit : ℕ → ℕ → DmaAnswer → UpOp

abbrev with_device : UpState → Device → UpState
with_device u d = record u { device = d }

handler_goes_on : ℕ → UpState → UpState
handler_goes_on zero u = u
handler_goes_on (suc n) u = record {
  device = napi_schedule u.device;
  handlers = n;
  polls = u.polls;
}

poll_goes_on : ℕ → UpState → UpState
poll_goes_on zero u = u
poll_goes_on (suc n) u = record { device = enable_irqs u.device; handlers = u.handlers; polls = n }

pub up_step : UpOp → UpState → UpState
up_step (raise e) u =
    let status = u.device.regs.irq_status in
    with_device u (record u.device {
      regs = record u.device.regs {
        irq_status = record { rx = status.rx || e.rx; tx = status.tx || e.tx };
      };
    })
up_step handler_masks u =
    if u.device.regs.irq_status.rx
    then record { device = mask_rx u.device; handlers = suc u.handlers; polls = u.polls }
    else u
up_step handler_schedules u = handler_goes_on u.handlers u
up_step (handler_cleans status) u = with_device u (tx_event status u.device)
up_step (handler_acknowledges status) u = with_device u (acknowledge status u.device)
up_step (poll_takes has_skb) u =
    if u.device.napi_scheduled && may_poll u.device.priv
    then with_device u (poll_one has_skb u.device)
    else u
up_step poll_completes u =
    if u.device.napi_scheduled
    then record { device = complete_napi u.device; handlers = u.handlers; polls = suc u.polls }
    else u
up_step poll_enables u = poll_goes_on u.polls u
up_step (xmit skb len a) u = with_device u (start_xmit skb len a u.device).1

pub up_run : List UpOp → UpState → UpState
up_run [] u = u
up_run (op ∷ ops) u = up_run ops (up_step op u)

-- The TX interrupt is enabled; and the RX interrupt is, unless NAPI is on the schedule or a thread
-- is about to put it there or to enable the interrupt.
pub record Alive (u : UpState) : Type 0 where
  pub tx_on : u.device.regs.irq_mask.tx ≡ true
  pub rx_on :
      u.device.napi_scheduled ≡ false
      → u.handlers ≡ 0
      → u.polls ≡ 0
      → u.device.regs.irq_mask.rx ≡ true

Same-Alive :
    (u : UpState) (d : Device)
    → d.regs.irq_mask ≡ u.device.regs.irq_mask
    → d.napi_scheduled ≡ u.device.napi_scheduled
    → Alive u
    → Alive (with_device u d)
Same-Alive u d m n a = record {
  tx_on = ap (λ i. i.tx) m ∙ a.tx_on;
  rx_on = λ off h p. ap (λ i. i.rx) m ∙ a.rx_on (sym n ∙ off) h p;
}

handler_goes_on-Alive : (n : ℕ) (u : UpState) → Alive u → Alive (handler_goes_on n u)
unfolding handler_goes_on
handler_goes_on-Alive zero u a = a
handler_goes_on-Alive (suc n) u a = record {
  tx_on = a.tx_on;
  rx_on = λ off h p. absurd (true≢false off);
}

poll_goes_on-Alive : (n : ℕ) (u : UpState) → Alive u → Alive (poll_goes_on n u)
unfolding poll_goes_on
poll_goes_on-Alive zero u a = a
poll_goes_on-Alive (suc n) u a = record { tx_on = refl; rx_on = λ off h p. refl }

if_Alive : (c : Bool) (u v : UpState) → Alive u → Alive v → Alive (if c then u else v)
if_Alive true u v a b = a
if_Alive false u v a b = b

step-Alive : (op : UpOp) (u : UpState) → Alive u → Alive (up_step op u)
unfolding up_step
step-Alive (raise e) u a = record { tx_on = a.tx_on; rx_on = a.rx_on }
step-Alive handler_masks u a =
    if_Alive u.device.regs.irq_status.rx _ u
      (record { tx_on = refl; rx_on = λ off h p. absurd (suc_ne h) }) a
step-Alive handler_schedules u a = handler_goes_on-Alive u.handlers u a
step-Alive (handler_cleans status) u a =
    let s = tx_event-Same status u.device in Same-Alive u (tx_event status u.device) s.mask s.napi a
step-Alive (handler_acknowledges status) u a =
    let s = acknowledge-mask status u.device in Same-Alive u (acknowledge status u.device) s.0 s.1 a
step-Alive (poll_takes has_skb) u a =
    let s = poll_one-Same has_skb u.device in
    if_Alive (u.device.napi_scheduled && may_poll u.device.priv) _ u
      (Same-Alive u (poll_one has_skb u.device) s.mask s.napi a) a
step-Alive poll_completes u a =
    if_Alive u.device.napi_scheduled _ u
      (record { tx_on = a.tx_on; rx_on = λ off h p. absurd (suc_ne p) }) a
step-Alive poll_enables u a = poll_goes_on-Alive u.polls u a
step-Alive (xmit skb len x) u a =
    let s = start_xmit-Same skb len x u.device in
    Same-Alive u (start_xmit skb len x u.device).1 s.mask s.napi a

run-Alive : (ops : List UpOp) (u : UpState) → Alive u → Alive (up_run ops u)
unfolding up_run
run-Alive [] u a = a
run-Alive (op ∷ ops) u a = run-Alive ops (up_step op u) (step-Alive op u a)

-- From `my_open` on, however the steps `UpOp` of the NIC, of handlers, of polls and of the stack
-- are interleaved, the TX interrupt stays enabled, and the RX interrupt is enabled whenever NAPI is off
-- the schedule, no handler is between its mask and `napi_schedule`, and no poll is between
-- `napi_complete_done` and its last write. While NAPI is on the schedule it may be either.
pub open_device-Alive :
    (ops : List UpOp) (d : Device)
    → Alive (up_run ops (record { device = open_device d; handlers = 0; polls = 0 }))
unfolding open_device
open_device-Alive ops d = run-Alive ops _ (record { tx_on = refl; rx_on = λ off h p. refl })

-- The window in `my_poll`: if the handler runs between `napi_complete_done` and the write after
-- it, NAPI is on the schedule with the RX interrupt enabled.
pub poll_window_lem :
    (u : UpState)
    → u.device.napi_scheduled ≡ true
    → u.device.regs.irq_status.rx ≡ true
    → let u' = up_run (poll_completes ∷ handler_masks ∷ handler_schedules ∷ poll_enables ∷ []) u in
      (u'.device.napi_scheduled ≡ true) × (u'.device.regs.irq_mask.rx ≡ true)
unfolding up_run up_step handler_goes_on poll_goes_on
poll_window_lem u on rx = rw (on, rx) (refl, refl)

-- A handler that no other thread interrupts does what `my_irq_handler` does.
pub handler-alone :
    (d : Device)
    → d.regs.irq_status.rx ≡ true
    → let status = d.regs.irq_status in
      let ops =
        handler_masks
        ∷ handler_schedules
        ∷ handler_cleans status
        ∷ handler_acknowledges status
        ∷ [] in
      (up_run ops (record { device = d; handlers = 0; polls = 0 })).device ≡ (irq_handler d).1
unfolding up_run up_step handler_goes_on irq_handler rx_event schedule_poll
handler-alone d rx = rw rx refl

-- And the end of a poll, what `my_poll` does there.
pub poll_end-alone :
    (d : Device) (budget w : ℕ)
    → d.napi_scheduled ≡ true
    → ltb w budget ≡ true
    → (up_run
        (poll_completes ∷ poll_enables ∷ [])
        (record { device = d; handlers = 0; polls = 0 })).device
      ≡ (finish_poll budget true (w, d)).1
unfolding up_run up_step poll_goes_on finish_poll
poll_end-alone d budget w on l = rw (on, l) refl
