-- ===== src/Edunic/Machine.antt =====
-- linux_nic_lab/driver: the transmit path, the work item of the chip, NAPI and the link timer, as
-- threads whose steps come in any order while the interface is up.
pub mod View
pub mod Flight
pub mod Reclaim
pub mod Handler
pub mod Invariant
pub mod Quiet
pub mod Alone
pub mod Whole
pub mod Sent
pub mod Stalled
pub mod Reopened
use linux_network_lab.Base.{
  ℕ, zero, suc, ◌≡◌, Bool, true, false, not, ◌&&◌, List, [], ◌∷◌, ◌++◌, ◌==◌, leb, if◌then◌else◌,
}
use linux_network_lab.NetDevice.Tx.{DmaAnswer}
use linux_network_lab.Edunic.Adapter.{edunic_next, Skb, EdunicRegs, EdunicAdapter}
use linux_network_lab.Edunic.Tx.{
  desc_per_pkt, tx_has_room, netif_stop_queue, netif_wake_queue, post_skb, count_tx_error,
  reclaim_done, wake_tx,
}
use linux_network_lab.Edunic.Rx.{Refill, edunic_clean_rx_irq}
use linux_network_lab.Edunic.Irq.{complete_poll}
use linux_network_lab.Edunic.Hw.{send_one, finish_work, take_work, edunic_link_timer_fn}

-- What follows a call of `edunic_maybe_stop_tx` in `edunic_start_xmit`: the skb is mapped, or the
-- function returns.
pub data Next : Type 0 where
  to_map : Skb → DmaAnswer → Next
  to_return : Next

-- Where `edunic_start_xmit` stands: before the first test of the room, before `netif_stop_queue`,
-- before the second test, or before `dma_map_single`.
pub data XmitPc : Type 0 where
  outside : XmitPc
  checking : Next → XmitPc
  stopping : Next → XmitPc
  rechecking : Next → XmitPc
  mapping : Skb → DmaAnswer → XmitPc

-- Where `edunic_hw_tx_worker` stands: at the test of its loop, with `head`, `tail` and `sent_any`.
pub data WorkerPc : Type 0 where
  resting : WorkerPc
  working : ℕ → ℕ → Bool → WorkerPc

-- Where `edunic_poll` stands: before the queue may be woken, before `edunic_clean_rx_irq`, or
-- before `napi_complete_done`.
pub data PollPc : Type 0 where
  away : PollPc
  waking : ℕ → PollPc
  receiving : PollPc
  completing : PollPc

-- `posted` lists the skbs that were put in the transmit ring.
pub record Machine : Type 0 where
  pub adapter : EdunicAdapter
  pub xmit : XmitPc
  pub worker : WorkerPc
  pub poll : PollPc
  pub posted : List Skb

abbrev pub go_on : Next → XmitPc
go_on (to_map skb ans) = mapping skb ans
go_on to_return = outside

abbrev check_room : Next → Machine → Machine
check_room next m =
    if tx_has_room desc_per_pkt m.adapter
    then record m { xmit = go_on next }
    else record m { xmit = stopping next }

abbrev recheck_room : Next → Machine → Machine
recheck_room next m =
    if not (tx_has_room desc_per_pkt m.adapter)
    then record m { xmit = elim next [ to_map skb ans ↦ outside | to_return ↦ outside ] }
    else record m { adapter = netif_wake_queue m.adapter; xmit = go_on next }

abbrev map_skb : Skb → DmaAnswer → Machine → Machine
map_skb skb ans m =
    if not ans.mapped
    then record m { adapter = count_tx_error skb m.adapter; xmit = outside }
    else record m {
      adapter = post_skb skb ans.address m.adapter;
      xmit = checking to_return;
      posted = m.posted ++ skb ∷ [];
    }

unfoldable pub xmit_step : Machine → Machine
xmit_step m = elim m.xmit [
  | outside ↦ m
  | checking next ↦ check_room next m
  | stopping next ↦ record m { adapter = netif_stop_queue m.adapter; xmit = rechecking next }
  | rechecking next ↦ recheck_room next m
  | mapping skb ans ↦ map_skb skb ans m
]

-- The work item starts if it is queued and does not run.
unfoldable pub start_work : Machine → Machine
start_work m = elim m.worker [
  | resting ↦
      if m.adapter.work_queued
      then record m {
        adapter = take_work m.adapter;
        worker = working m.adapter.regs.tdh m.adapter.regs.tdt false;
      }
      else m
  | working head tail sent ↦ m
]

unfoldable pub work_step : Bool → Bool → Machine → Machine
work_step allocated prep m = elim m.worker [
  | resting ↦ m
  | working head tail sent ↦
      if head == tail
      then record m {
        adapter = if sent then finish_work prep head m.adapter else m.adapter;
        worker = resting;
      }
      else record m {
        adapter = send_one allocated head m.adapter;
        worker = working (edunic_next head) tail true;
      }
]

-- NAPI calls `edunic_poll` while it is on the schedule.
unfoldable pub start_poll : Machine → Machine
start_poll m = elim m.poll [
  | away ↦
      if m.adapter.napi_scheduled
      then record m {
        adapter = (reclaim_done m.adapter).1;
        poll = waking (reclaim_done m.adapter).0;
      }
      else m
  | _ ↦ m
]

unfoldable pub poll_step : ℕ → List Refill → Bool → Machine → Machine
poll_step budget answers completed m = elim m.poll [
  | away ↦ m
  | waking packets ↦ record m { adapter = wake_tx packets m.adapter; poll = receiving }
  | receiving ↦
      let harvest = edunic_clean_rx_irq budget answers m.adapter in
      record m { adapter = harvest.1; poll = if leb budget harvest.0 then away else completing }
  | completing ↦ record m { adapter = complete_poll completed m.adapter; poll = away }
]

-- The steps, with what the kernel's functions answer in them.
pub data Turn : Type 0 where
  call_xmit : Skb → DmaAnswer → Turn
  xmit_turn : Turn
  worker_starts : Turn
  worker_turn : Bool → Bool → Turn
  poll_starts : Turn
  poll_turn : ℕ → List Refill → Bool → Turn
  link_timer : Bool → Turn

-- The stack transmits one skb at a time.
unfoldable pub call_step : Skb → DmaAnswer → Machine → Machine
call_step skb ans m = elim m.xmit [
  | outside ↦ record m { xmit = checking (to_map skb ans) }
  | _ ↦ m
]

unfoldable pub turn : Turn → Machine → Machine
turn (call_xmit skb ans) m = call_step skb ans m
turn xmit_turn m = xmit_step m
turn worker_starts m = start_work m
turn (worker_turn allocated prep) m = work_step allocated prep m
turn poll_starts m = start_poll m
turn (poll_turn budget answers completed) m = poll_step budget answers completed m
turn (link_timer prep) m = record m { adapter = edunic_link_timer_fn prep m.adapter }

-- What NAPI promises: `napi_schedule_prep` accepts unless NAPI is on the schedule, and
-- `napi_complete_done` does not complete if a call was refused meanwhile.
abbrev pub Promised : Turn → Machine → Type 0
Promised (worker_turn allocated prep) m = prep ≡ not m.adapter.napi_scheduled
Promised (link_timer prep) m = prep ≡ not m.adapter.napi_scheduled
Promised (poll_turn budget answers completed) m = (completed && m.adapter.napi_missed) ≡ false
Promised _ m = Unit

-- Any number of steps.
pub data Run (m : Machine) : Machine → Type 0 where
  here : Run m m
  next : {n : Machine} → Run m n → (t : Turn) → Promised t n → Run m (turn t n)
