-- ===== src/Edunic/Irq.antt =====
-- linux_nic_lab/driver/nic_irq.c: the interrupt handler and NAPI.
use linux_network_lab.Base.{ℕ, Bool, true, false, not, ◌||◌, List, leb, if◌then◌else◌}
use linux_network_lab.NetDevice.Irq.{IrqReturn, irq_none, irq_handled}
use linux_network_lab.Edunic.Adapter.{Causes, no_causes, EdunicAdapter}
use linux_network_lab.Edunic.Tx.{edunic_clean_tx_irq}
use linux_network_lab.Edunic.Rx.{Refill, edunic_clean_rx_irq}

-- Reading ICR clears it.
abbrev pub read_icr : EdunicAdapter → EdunicAdapter
read_icr a = record a { regs = record a.regs { icr = no_causes } }

abbrev pub set_carrier : Causes → EdunicAdapter → EdunicAdapter
set_carrier icr a = if icr.lsc then record a { carrier = a.link_up } else a

-- What `napi_schedule_prep` answers; NAPI remembers a call that it refuses.
abbrev pub schedule_napi : Bool → EdunicAdapter → EdunicAdapter
schedule_napi true a = record a {
  regs = record a.regs { ims = record a.regs.ims { tx = false; rx = false } };
  napi_scheduled = true;
}
schedule_napi false a = record a { napi_missed = true }

unfoldable pub edunic_intr : Bool → EdunicAdapter → IrqReturn × EdunicAdapter
edunic_intr prep a =
    let icr = a.regs.icr in
    if not (icr.tx || icr.rx || icr.lsc) then (irq_none, read_icr a) else (
      irq_handled,
      if icr.rx || icr.tx
          then schedule_napi prep (set_carrier icr (read_icr a))
          else set_carrier icr (read_icr a),
    )

-- What `napi_complete_done` answers: with false NAPI stays on the schedule.
unfoldable pub complete_poll : Bool → EdunicAdapter → EdunicAdapter
complete_poll true a = record a {
  napi_scheduled = false;
  regs = record a.regs { ims = record a.regs.ims { tx = true; rx = true } };
}
complete_poll false a = record a { napi_missed = false }

unfoldable pub edunic_poll : ℕ → List Refill → Bool → EdunicAdapter → ℕ × EdunicAdapter
edunic_poll budget answers completed a =
    let (done, b) = edunic_clean_rx_irq budget answers (edunic_clean_tx_irq a).1 in
    if leb budget done then (budget, b) else (done, complete_poll completed b)

-- What `pci_alloc_irq_vectors` and `request_irq` answer, and whether the set-up succeeds.
unfoldable pub edunic_setup_interrupts : Bool → Bool → EdunicAdapter → Bool × EdunicAdapter
edunic_setup_interrupts allocated requested a =
    if not allocated
    then (false, a)
    else if not requested
    then (false, record a { vectors = false })
    else (true, record a { vectors = true; irq_requested = true })

abbrev pub edunic_free_interrupts : EdunicAdapter → EdunicAdapter
edunic_free_interrupts a = record a { irq_requested = false; vectors = false }

-- NAPI that is enabled is not on the schedule.
abbrev pub edunic_napi_enable : EdunicAdapter → EdunicAdapter
edunic_napi_enable a = record a { napi_enabled = true; napi_scheduled = false; napi_missed = false }

-- `napi_disable` waits until NAPI is off the schedule.
abbrev pub edunic_napi_disable : EdunicAdapter → EdunicAdapter
edunic_napi_disable a = record a {
  napi_enabled = false;
  napi_scheduled = false;
  napi_missed = false;
}
