-- ===== src/Edunic/Machine/Stalled.antt =====
-- linux_nic_lab/driver: an interface that is stopped and opened again while the ring is full and
-- the work item has yet to run.
use linux_network_lab.Base.{
  ◌≡◌, refl, sym, ap, subst, ◌∙◌, Bool, true, false, [], leb, if◌then◌else◌,
}
use mathlib.Core.Bool.{false≢true}
use linux_network_lab.Edunic.Adapter.{Skb, EdunicTxRing, EdunicAdapter}
use linux_network_lab.Edunic.Tx.{
  tx_has_room, desc_per_pkt, edunic_tx_unused, netif_stop_queue, reclaim_done,
}
use linux_network_lab.NetDevice.Tx.{DmaAnswer}
use linux_network_lab.Edunic.Irq.{edunic_intr}
use linux_network_lab.Edunic.Hw.{take_work, edunic_link_timer_fn}
use linux_network_lab.Edunic.Machine.{
  to_map, to_return, XmitPc, outside, checking, stopping, rechecking, mapping, resting, working,
  away, waking, Machine, Turn, call_xmit, xmit_turn, worker_starts, worker_turn, poll_starts,
  poll_turn, link_timer, call_step, xmit_step, start_work, work_step, start_poll, poll_step, turn,
  Run, here, next,
}
use linux_network_lab.Edunic.Machine.View.{view}
use linux_network_lab.Edunic.Machine.Invariant.{is_mapping}
use linux_network_lab.Edunic.Machine.Quiet.{at_rest}
use linux_network_lab.Edunic.Machine.Handler.{intr_icr}

abbrev pub room : EdunicTxRing → Bool
room r = leb desc_per_pkt (edunic_tx_unused r)

-- The ring is full, and nothing is under way that could reclaim.
pub record Stuck (a : EdunicAdapter) (x : XmitPc) : Type 0 where
  pub full : tx_has_room desc_per_pkt a ≡ false
  pub no_mapping : is_mapping x ≡ false
  pub no_work : a.work_queued ≡ false
  pub no_napi : a.napi_scheduled ≡ false
  pub no_tx : a.regs.icr.tx ≡ false
  pub no_rx : a.regs.icr.rx ≡ false

abbrev pub stuck_machine : EdunicAdapter → XmitPc → Machine
stuck_machine a x = record { adapter = a; xmit = x; worker = resting; poll = away; posted = [] }

-- What a machine is after steps that changed nothing of the ring.
pub record StillStuck (r : EdunicTxRing) (m : Machine) : Type 0 where
  pub after : EdunicAdapter
  pub pc : XmitPc
  pub is : m ≡ stuck_machine after pc
  pub stuck : Stuck after pc
  pub same : after.tx_ring ≡ r

module _ (a : EdunicAdapter) where
  still : (x : XmitPc) → Stuck a x → StillStuck a.tx_ring (stuck_machine a x)
  still x s = record { after = a; pc = x; is = refl; stuck = s; same = refl }

  Stuck-at : {x : XmitPc} (x' : XmitPc) → Stuck a x → is_mapping x' ≡ false → Stuck a x'
  Stuck-at x' s e = record {
    full = s.full;
    no_mapping = e;
    no_work = s.no_work;
    no_napi = s.no_napi;
    no_tx = s.no_tx;
    no_rx = s.no_rx;
  }

  call_step-Stuck :
      (x : XmitPc) (skb : Skb) (ans : DmaAnswer)
      → Stuck a x
      → StillStuck a.tx_ring (call_step skb ans (stuck_machine a x))
  unfolding call_step
  call_step-Stuck outside skb ans s = still _ (Stuck-at _ s refl)
  call_step-Stuck (checking n) skb ans s = still _ s
  call_step-Stuck (stopping n) skb ans s = still _ s
  call_step-Stuck (rechecking n) skb ans s = still _ s
  call_step-Stuck (mapping skb' ans') skb ans s = still _ s

  xmit_step-Stuck : (x : XmitPc) → Stuck a x → StillStuck a.tx_ring (xmit_step (stuck_machine a x))
  unfolding xmit_step
  xmit_step-Stuck outside s = still _ s
  xmit_step-Stuck (checking n) s = rw s.full (still _ (Stuck-at (stopping n) s refl))
  xmit_step-Stuck (stopping n) s = record {
    after = netif_stop_queue a;
    pc = rechecking n;
    is = refl;
    stuck = record {
      full = s.full;
      no_mapping = refl;
      no_work = s.no_work;
      no_napi = s.no_napi;
      no_tx = s.no_tx;
      no_rx = s.no_rx;
    };
    same = refl;
  }
  xmit_step-Stuck (rechecking (to_map skb ans)) s = rw s.full (still _ (Stuck-at outside s refl))
  xmit_step-Stuck (rechecking to_return) s = rw s.full (still _ (Stuck-at outside s refl))
  xmit_step-Stuck (mapping skb ans) s = absurd (false≢true (sym s.no_mapping))

  start_work-Stuck :
      (x : XmitPc) → Stuck a x → StillStuck a.tx_ring (start_work (stuck_machine a x))
  unfolding start_work
  start_work-Stuck x s = start a.work_queued s.no_work
    where
      start :
          (c : Bool)
          → c ≡ false
          → StillStuck a.tx_ring (
              if c
              then record (stuck_machine a x) {
                adapter = take_work a;
                worker = working a.regs.tdh a.regs.tdt false;
              }
              else stuck_machine a x)
      start true e = absurd (false≢true (sym e))
      start false e = still x s

  start_poll-Stuck :
      (x : XmitPc) → Stuck a x → StillStuck a.tx_ring (start_poll (stuck_machine a x))
  unfolding start_poll
  start_poll-Stuck x s = start a.napi_scheduled s.no_napi
    where
      start :
          (c : Bool)
          → c ≡ false
          → StillStuck a.tx_ring (
              if c
              then record (stuck_machine a x) {
                adapter = (reclaim_done a).1;
                poll = waking (reclaim_done a).0;
              }
              else stuck_machine a x)
      start true e = absurd (false≢true (sym e))
      start false e = still x s

  link_timer-Stuck :
      (x : XmitPc) (prep : Bool)
      → Stuck a x
      → Stuck (edunic_link_timer_fn prep a) x × ((edunic_link_timer_fn prep a).tx_ring ≡ a.tx_ring)
  unfolding edunic_link_timer_fn edunic_tx_unused
  link_timer-Stuck x prep s =
      let b : EdunicAdapter = record a {
        timer_armed = false;
        link_up = true;
        regs = record a.regs { linkup = true; icr = record a.regs.icr { lsc = true } };
      } in
      let (cleared, keeps) = intr_icr prep b in
      let same : view (edunic_intr prep b).1 ≡ view a = keeps (rw (s.no_rx, s.no_tx) refl) in
      (
        record {
          full = ap (λ v. room v.ring) same ∙ s.full;
          no_mapping = s.no_mapping;
          no_work = ap (λ v. v.queued) same ∙ s.no_work;
          no_napi = ap (λ v. v.scheduled) same ∙ s.no_napi;
          no_tx = ap (λ c. c.tx) cleared;
          no_rx = ap (λ c. c.rx) cleared;
        },
        ap (λ v. v.ring) same,
      )

turn-Stuck :
    (t : Turn) (a : EdunicAdapter) (x : XmitPc)
    → Stuck a x
    → StillStuck a.tx_ring (turn t (stuck_machine a x))
unfolding turn work_step poll_step
turn-Stuck (call_xmit skb ans) a x s = call_step-Stuck a x skb ans s
turn-Stuck xmit_turn a x s = xmit_step-Stuck a x s
turn-Stuck worker_starts a x s = start_work-Stuck a x s
turn-Stuck (worker_turn allocated prep) a x s = still a x s
turn-Stuck poll_starts a x s = start_poll-Stuck a x s
turn-Stuck (poll_turn budget answers completed) a x s = still a x s
turn-Stuck (link_timer prep) a x s =
    let (t, e) = link_timer-Stuck a x prep s in
    record { after = edunic_link_timer_fn prep a; pc = x; is = refl; stuck = t; same = e }

pub Run-Stuck :
    (a : EdunicAdapter) (m : Machine) → Stuck a outside → Run (at_rest a) m → StillStuck a.tx_ring m
Run-Stuck a _ s here = still a outside s
Run-Stuck a _ s (next r t e) =
    let before = Run-Stuck a _ s r in
    let after = turn-Stuck t before.after before.pc before.stuck in
    subst (λ m. StillStuck a.tx_ring (turn t m)) (sym before.is)
      (record {
        after = after.after;
        pc = after.pc;
        is = after.is;
        stuck = after.stuck;
        same = after.same ∙ before.same;
      })
