-- ===== src/Edunic/Tests/Lifetime.antt =====
-- linux_nic_lab/driver: the probe, the work item and a reopened interface at concrete inputs.
use linux_network_lab.Base.{◌≡◌, refl, true, false, [], ◌∷◌, some, arith}
use linux_network_lab.Edunic.Adapter.{EdunicAdapter}
use linux_network_lab.Edunic.Tx.{tx_has_room, desc_per_pkt, edunic_tx_unused}
use linux_network_lab.Edunic.Hw.{edunic_hw_tx_worker, edunic_open, edunic_stop}
use linux_network_lab.Edunic.Pci.{ProbeAnswers, fresh_tx_ring, edunic_probe}
use linux_network_lab.Edunic.Pci.Unwinding.{Unwound, edunic_probe-Unwound}
use linux_network_lab.Edunic.Machine.{start_work, outside, call_xmit, turn, here, next}
use linux_network_lab.Edunic.Machine.Quiet.{at_rest}
use linux_network_lab.Edunic.Machine.Reopened.{reopened_lem}
use linux_network_lab.Edunic.Machine.{resting, away}
use linux_network_lab.Edunic.Machine
use linux_network_lab.Edunic.Machine.View.{view}
use linux_network_lab.Edunic.Machine.Whole.{works}
use linux_network_lab.Edunic.Machine.Sent.{WorkSent, work_sends}
use linux_network_lab.Edunic.Tests.{zero_regs, address_1, blank_adapter, packet_7, mapped}

-- The last step of the probe fails.
abbrev not_registered : ProbeAnswers
not_registered = record {
  enables = true;
  requests = true;
  maps = true;
  mask64 = false;
  mask32 = true;
  allocates = true;
  address = address_1;
  tx_coherent = some 4096;
  tx_kcalloc = true;
  rx_coherent = some 8192;
  rx_kcalloc = true;
  refills = record { fresh = some 100; mapping = mapped } ∷ [];
  alloc_workqueue = true;
  registers = false;
}

edunic_probe-Unwound_example :
    Unwound (edunic_probe not_registered (record { adapter = blank_adapter; got = []; given = [] }))
edunic_probe-Unwound_example = edunic_probe-Unwound not_registered blank_adapter

-- 255 skbs wait for the chip.
abbrev full_adapter : EdunicAdapter
full_adapter = record blank_adapter {
  tx_ring = record (fresh_tx_ring 4096) { next_to_use = 255 };
  regs = record zero_regs { tdt = 255 };
  work_queued = true;
  queue_stopped = true;
}

abbrev reopened : EdunicAdapter
reopened =
    (edunic_open true true (edunic_hw_tx_worker (λ i. true) false (edunic_stop full_adapter))).1

reopened_lem_example :
    let m = turn (call_xmit packet_7 mapped) (at_rest reopened) in
    (m.posted ≡ [])
    × (m.adapter.tx_ring ≡ reopened.tx_ring)
    × (tx_has_room desc_per_pkt m.adapter ≡ false)
unfolding edunic_tx_unused
reopened_lem_example =
    reopened_lem (λ i. true) full_adapter (turn (call_xmit packet_7 mapped) (at_rest reopened)) refl
      (λ e. omega (arith, e)) (next here (call_xmit packet_7 mapped) tt)

abbrev worked : Machine.Machine
worked =
    works 257 (λ i. true) false
      (start_work (record {
        adapter = full_adapter;
        xmit = outside;
        worker = resting;
        poll = away;
        posted = [];
      }))

work_sends_example :
    (worked.worker ≡ resting) × WorkSent 0 255 false (view full_adapter) (view worked.adapter)
work_sends_example =
    work_sends outside away [] (λ i. true) false full_adapter refl (omega arith) (omega arith)
