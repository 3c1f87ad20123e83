-- ===== src/Edunic/Tests.antt =====
-- linux_nic_lab/driver at concrete inputs.
mod Receive
mod Lifetime
use linux_network_lab.Base.{pos, ◌≡◌, refl, true, false, List, [], ◌∷◌, ◌++◌, some, arith}
use linux_network_lab.NetDevice.Tx.{DmaAnswer}
use linux_network_lab.Edunic.Adapter.{MacAddress, Skb, no_causes, EdunicRegs, EdunicAdapter}
use linux_network_lab.Edunic.Tx.{
  tx_has_room, desc_per_pkt, edunic_tx_unused, edunic_start_xmit, post_skb, reclaim_done,
  reclaim_loop, may_reclaim, reclaim_one, wake_tx,
}
use linux_network_lab.Edunic.Rx.{edunic_hw_deliver_rx_frame, edunic_clean_rx_irq, harvest_loop}
use linux_network_lab.Edunic.Irq.{edunic_setup_interrupts, edunic_intr, complete_poll}
use linux_network_lab.Edunic.Hw.{
  edunic_hw_start, edunic_hw_init_rings, edunic_link_timer_fn, send_one, loop_back, finish_work,
  edunic_hw_tx_worker, edunic_open, edunic_stop,
}
use linux_network_lab.Edunic.Pci.{ProbeAnswers, fresh_tx_ring, fresh_rx_ring, edunic_probe}
use linux_network_lab.Edunic.Pci.Unwinding.{Unwound, edunic_probe-Unwound}
use linux_network_lab.Edunic.Machine.{
  call_step, xmit_step, start_work, work_step, start_poll, poll_step, to_map, outside, checking,
  Machine, Turn, call_xmit, xmit_turn, worker_starts, worker_turn, poll_starts, poll_turn,
  link_timer, turn, Run, here, next,
}
use linux_network_lab.Edunic.Machine.Invariant.{Sound}
use linux_network_lab.Edunic.Machine.Quiet.{at_rest, opened, Quiet, Run-Sound, Run-Quiet}
use linux_network_lab.Edunic.Machine.Alone.{alone, taken, start_xmit-alone}
use linux_network_lab.Edunic.Machine.Reopened.{reopened_lem}

abbrev pub zero_regs : EdunicRegs
zero_regs = record {
  rst = false;
  txen = false;
  rxen = false;
  linkup = false;
  mac_low = 0;
  mac_high = 0;
  tdbal = 0;
  tdbah = 0;
  tdlen = 0;
  rdbal = 0;
  rdbah = 0;
  rdlen = 0;
  tdh = 0;
  tdt = 0;
  rdh = 0;
  rdt = 0;
  icr = no_causes;
  ims = no_causes;
}

abbrev pub address_1 : MacAddress
address_1 = record { byte0 = 2; byte1 = 0; byte2 = 0; byte3 = 0; byte4 = 0; byte5 = 1 }

abbrev pub blank_adapter : EdunicAdapter
blank_adapter = record {
  tx_ring = fresh_tx_ring 0;
  rx_ring = fresh_rx_ring 0;
  stats = record {
    tx_packets = 0;
    tx_bytes = 0;
    tx_errors = 0;
    rx_packets = 0;
    rx_bytes = 0;
    rx_errors = 0;
    rx_dropped = 0;
  };
  regs = zero_regs;
  work_queued = false;
  timer_armed = false;
  link_up = false;
  queue_stopped = true;
  carrier = false;
  napi_enabled = false;
  napi_scheduled = false;
  napi_missed = false;
  vectors = false;
  irq_requested = false;
  dev_addr = address_1;
  mtu = pos 1500;
  freed = [];
  consumed = [];
  gro = [];
}

abbrev pub packet_7 : Skb
packet_7 = record { id = 7; bytes = 1 ∷ 2 ∷ 3 ∷ [] }

abbrev pub mapped : DmaAnswer
mapped = record { address = 9000; mapped = true }

abbrev after : List Turn → Machine → Machine
after [] m = m
after (t ∷ ts) m = after ts (turn t m)

abbrev fresh_machine : Machine
fresh_machine = at_rest (opened 4096 blank_adapter)

-- An skb is posted while the link comes up, and the work item starts.
abbrev posting_turns : List Turn
posting_turns =
    call_xmit packet_7 mapped
    ∷ xmit_turn
    ∷ xmit_turn
    ∷ xmit_turn
    ∷ link_timer true
    ∷ worker_starts
    ∷ []

posting_run : Run fresh_machine (after posting_turns fresh_machine)
unfolding turn xmit_step call_step start_work work_step start_poll poll_step edunic_open
    edunic_hw_start edunic_hw_init_rings edunic_setup_interrupts edunic_tx_unused post_skb
    edunic_link_timer_fn edunic_intr send_one loop_back edunic_hw_deliver_rx_frame finish_work
    reclaim_done reclaim_loop may_reclaim reclaim_one wake_tx edunic_clean_rx_irq harvest_loop
    complete_poll
posting_run =
    next
      (next
        (next (next (next (next here (call_xmit packet_7 mapped) tt) xmit_turn tt) xmit_turn tt)
          xmit_turn tt)
        (link_timer true) refl)
      worker_starts tt

Run-Sound_example : Sound (after posting_turns fresh_machine)
Run-Sound_example =
    Run-Sound 4096 blank_adapter (after posting_turns fresh_machine) refl posting_run

-- The chip sends it, and NAPI reclaims it.
abbrev sending_turns : List Turn
sending_turns =
    worker_turn true true
    ∷ worker_turn true true
    ∷ poll_starts
    ∷ poll_turn 64 [] true
    ∷ poll_turn 64 [] true
    ∷ poll_turn 64 [] true
    ∷ []

abbrev sent_machine : Machine
sent_machine = after sending_turns (after posting_turns fresh_machine)

sending_run : Run fresh_machine sent_machine
unfolding turn xmit_step call_step start_work work_step start_poll poll_step edunic_open
    edunic_hw_start edunic_hw_init_rings edunic_setup_interrupts edunic_tx_unused post_skb
    edunic_link_timer_fn edunic_intr send_one loop_back edunic_hw_deliver_rx_frame finish_work
    reclaim_done reclaim_loop may_reclaim reclaim_one wake_tx edunic_clean_rx_irq harvest_loop
    complete_poll
sending_run =
    next
      (next
        (next
          (next (next (next posting_run (worker_turn true true) refl) (worker_turn true true) refl)
            poll_starts tt)
          (poll_turn 64 [] true) refl)
        (poll_turn 64 [] true) refl)
      (poll_turn 64 [] true) refl

sent-Quiet : Quiet sent_machine
unfolding turn xmit_step call_step start_work work_step start_poll poll_step edunic_open
    edunic_hw_start edunic_hw_init_rings edunic_setup_interrupts edunic_tx_unused post_skb
    edunic_link_timer_fn edunic_intr send_one loop_back edunic_hw_deliver_rx_frame finish_work
    reclaim_done reclaim_loop may_reclaim reclaim_one wake_tx edunic_clean_rx_irq harvest_loop
    complete_poll
sent-Quiet = record {
  no_xmit = refl;
  no_worker = refl;
  no_poll = refl;
  no_work = refl;
  no_napi = refl;
}

Run-Quiet_example :
    (sent_machine.adapter.consumed ≡ sent_machine.posted)
    × (sent_machine.adapter.tx_ring.next_to_clean ≡ sent_machine.adapter.tx_ring.next_to_use)
    × (sent_machine.adapter.queue_stopped ≡ false)
Run-Quiet_example = Run-Quiet 4096 blank_adapter sent_machine refl sending_run sent-Quiet

posted_7 : sent_machine.posted ≡ packet_7 ∷ []
unfolding turn xmit_step call_step start_work work_step start_poll poll_step edunic_open
    edunic_hw_start edunic_hw_init_rings edunic_setup_interrupts edunic_tx_unused post_skb
    edunic_link_timer_fn edunic_intr send_one loop_back edunic_hw_deliver_rx_frame finish_work
    reclaim_done reclaim_loop may_reclaim reclaim_one wake_tx edunic_clean_rx_irq harvest_loop
    complete_poll
posted_7 = refl

packet_7-alone :
    let n = alone 5 (record fresh_machine { xmit = checking (to_map packet_7 mapped) }) in
    (n.adapter ≡ (edunic_start_xmit packet_7 mapped fresh_machine.adapter).1)
    × (n.xmit ≡ outside)
    × (n.posted ≡ [] ++ taken fresh_machine.adapter packet_7 mapped)
packet_7-alone = start_xmit-alone packet_7 mapped fresh_machine
