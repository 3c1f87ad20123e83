-- ===== src/Edunic/Machine/Handler.antt =====
-- linux_nic_lab/driver/nic_irq.c and nic_hw.c: what the interrupt handler and the work item change of
-- what the transmit path sees.
use linux_network_lab.Base.{
  ℕ, ◌≡◌, refl, sym, ap, Bool, true, false, not, ◌||◌, ◌⊎◌, inl, inr, if◌then◌else◌, Bool-cases,
}
use mathlib.Core.Bool.{false≢true}
use linux_network_lab.NetDevice.Irq.{IrqReturn, irq_none, irq_handled}
use linux_network_lab.Edunic.Adapter.{no_causes, Causes, EdunicAdapter}
use linux_network_lab.Edunic.Irq.{schedule_napi, set_carrier, read_icr, edunic_intr}
use linux_network_lab.Edunic.Hw.{send_one, finish_work}
use linux_network_lab.Edunic.Machine.View.{View, view, view-loop_back}
use linux_network_lab.Edunic.Machine.Flight.{marked}

-- What the handler changes when it asks for NAPI.
abbrev pub asked : Bool → View → View
asked true v = record v { scheduled = true }
asked false v = record v { missed = true }

pub view-schedule :
    (prep : Bool) (icr : Causes) (a : EdunicAdapter)
    → view (schedule_napi prep (set_carrier icr (read_icr a))) ≡ asked prep (view a)
view-schedule true icr a = elim (Bool-cases icr.lsc) [ inl e ↦ rw e refl | inr e ↦ rw e refl ]
view-schedule false icr a = elim (Bool-cases icr.lsc) [ inl e ↦ rw e refl | inr e ↦ rw e refl ]

pub always : (b : Bool) → (b || true) ≡ true
always true = refl
always false = refl

pub view-asking :
    (c prep : Bool) (icr : Causes) (a : EdunicAdapter)
    → c ≡ true
    → view (
        if c
        then schedule_napi prep (set_carrier icr (read_icr a))
        else set_carrier icr (read_icr a))
      ≡ asked prep (view a)
view-asking true prep icr a e = view-schedule prep icr a
view-asking false prep icr a e = absurd (false≢true e)

-- TDH and the cause, and then the handler.
pub view-finish_work :
    (prep : Bool) (head : ℕ) (a : EdunicAdapter)
    → view (finish_work prep head a) ≡ asked prep (record (view a) { tdh = head })
unfolding finish_work edunic_intr
view-finish_work prep head a =
    let b : EdunicAdapter = record a {
      regs = record a.regs { tdh = head; icr = record a.regs.icr { tx = true } };
    } in
    view-asking (a.regs.icr.rx || true) prep b.regs.icr b (always a.regs.icr.rx)

pub view-set_carrier :
    (icr : Causes) (a : EdunicAdapter) → view (set_carrier icr (read_icr a)) ≡ view a
view-set_carrier icr a = elim (Bool-cases icr.lsc) [ inl e ↦ simp e refl | inr e ↦ simp e refl ]

pub intr_branches :
    (idle asks prep : Bool) (icr : Causes) (a : EdunicAdapter)
    → let result : IrqReturn × EdunicAdapter = if idle then (irq_none, read_icr a) else (
      irq_handled,
      if asks
          then schedule_napi prep (set_carrier icr (read_icr a))
          else set_carrier icr (read_icr a),
    ) in
      (view result.1 ≡ view a) ⊎ (view result.1 ≡ asked prep (view a))
intr_branches true asks prep icr a = inl refl
intr_branches false true prep icr a = inr (view-schedule prep icr a)
intr_branches false false prep icr a = inl (view-set_carrier icr a)

-- The handler asks for NAPI, or changes nothing that the transmit path sees.
pub intr_cases :
    (prep : Bool) (a : EdunicAdapter)
    → (view (edunic_intr prep a).1 ≡ view a) ⊎ (view (edunic_intr prep a).1 ≡ asked prep (view a))
unfolding edunic_intr
intr_cases prep a =
    intr_branches (not (a.regs.icr.tx || a.regs.icr.rx || a.regs.icr.lsc))
      (a.regs.icr.rx || a.regs.icr.tx) prep a.regs.icr a

pub asked-tdh :
    (prep : Bool) (head : ℕ) (v : View)
    → asked prep (record v { tdh = head }) ≡ record (asked prep v) { tdh = head }
asked-tdh true head v = refl
asked-tdh false head v = refl

pub view-send_one :
    (allocated : Bool) (head : ℕ) (a : EdunicAdapter)
    → view (send_one allocated head a) ≡ record (view a) { ring = marked head (view a).ring }
unfolding send_one
view-send_one allocated head a =
    ap {A = View} (λ v. record v { ring = marked head v.ring }) (view-loop_back allocated head a)

pub carrier_icr :
    (icr : Causes) (a : EdunicAdapter) → (set_carrier icr (read_icr a)).regs.icr ≡ no_causes
carrier_icr icr a = carrier icr.lsc
  where
    carrier :
        (c : Bool)
        → (if c then record (read_icr a) { carrier = a.link_up } else read_icr a).regs.icr
          ≡ no_causes
    carrier true = refl
    carrier false = refl

-- The handler leaves no cause, and asks for NAPI only for TX or RX.
pub icr_branches :
    (idle asks prep : Bool) (icr : Causes) (a : EdunicAdapter)
    → let result : IrqReturn × EdunicAdapter = if idle then (irq_none, read_icr a) else (
      irq_handled,
      if asks
          then schedule_napi prep (set_carrier icr (read_icr a))
          else set_carrier icr (read_icr a),
    ) in
      (result.1.regs.icr ≡ no_causes) × (asks ≡ false → view result.1 ≡ view a)
icr_branches true asks prep icr a = (refl, λ e. refl)
icr_branches false true true icr a = (carrier_icr icr a, λ e. absurd (false≢true (sym e)))
icr_branches false true false icr a = (carrier_icr icr a, λ e. absurd (false≢true (sym e)))
icr_branches false false prep icr a = (carrier_icr icr a, λ e. view-set_carrier icr a)

pub intr_icr :
    (prep : Bool) (a : EdunicAdapter)
    → ((edunic_intr prep a).1.regs.icr ≡ no_causes)
      × ((a.regs.icr.rx || a.regs.icr.tx) ≡ false → view (edunic_intr prep a).1 ≡ view a)
unfolding edunic_intr
intr_icr prep a =
    icr_branches (not (a.regs.icr.tx || a.regs.icr.rx || a.regs.icr.lsc))
      (a.regs.icr.rx || a.regs.icr.tx) prep a.regs.icr a
