-- ===== src/Edunic/Machine/Reopened.antt =====
-- linux_nic_lab/driver: what `edunic_stop`, the late work item and `edunic_open` leave behind.
use linux_network_lab.Base.{
  ℕ, zero, suc, ◌≡◌, ◌≢◌, refl, ap, ◌∙◌, Bool, true, false, inl, inr, [], ◌==◌, Bool-cases, ==_iff,
}
use linux_network_lab.Edunic.Adapter.{edunic_ring_size, edunic_next, no_causes, EdunicAdapter}
use linux_network_lab.Edunic.Tx.{tx_has_room, desc_per_pkt, edunic_tx_unused}
use linux_network_lab.Edunic.Irq.{edunic_setup_interrupts}
use linux_network_lab.Edunic.Hw.{
  send_one, send_loop, finish_work, take_work, edunic_hw_tx_worker, edunic_hw_start, edunic_hw_stop,
  edunic_open, edunic_stop,
}
use linux_network_lab.Edunic.Machine.{outside, Machine, Run}
use linux_network_lab.Edunic.Machine.Handler.{view-finish_work, view-send_one, intr_icr}
use linux_network_lab.Edunic.Machine.Quiet.{at_rest}
use linux_network_lab.Edunic.Machine.Stalled.{room, Stuck, Run-Stuck}

-- The chip frees no place of the ring, and queues no work.
record SameRoom (a b : EdunicAdapter) : Type 0 where
  room_same : room b.tx_ring ≡ room a.tx_ring
  work_same : b.work_queued ≡ a.work_queued

send_one-SameRoom :
    (allocated : Bool) (head : ℕ) (a : EdunicAdapter) → SameRoom a (send_one allocated head a)
unfolding edunic_tx_unused
send_one-SameRoom allocated head a =
    let e = view-send_one allocated head a in
    record { room_same = ap (λ v. room v.ring) e; work_same = ap (λ v. v.queued) e }

send_loop-SameRoom :
    (rounds : ℕ) (allocated : ℕ → Bool) (head tail : ℕ) (sent : Bool) (a : EdunicAdapter)
    → SameRoom a (send_loop rounds allocated head tail sent a).2
unfolding send_loop
send_loop-SameRoom zero allocated head tail sent a = record { room_same = refl; work_same = refl }
send_loop-SameRoom (suc rounds) allocated head tail sent a = elim (Bool-cases (head == tail)) [
  | inl e ↦ rw (e, send_loop) (record { room_same = refl; work_same = refl })
  | inr e ↦
      let s = send_one-SameRoom (allocated head) head a in
      let r =
        send_loop-SameRoom rounds allocated (edunic_next head) tail true
          (send_one (allocated head) head a) in
      rw (e, send_loop)
        (record { room_same = r.room_same ∙ s.room_same; work_same = r.work_same ∙ s.work_same })
]

send_loop-sent :
    (rounds : ℕ) (allocated : ℕ → Bool) (head tail : ℕ) (a : EdunicAdapter)
    → (send_loop rounds allocated head tail true a).1 ≡ true
unfolding send_loop
send_loop-sent zero allocated head tail a = refl
send_loop-sent (suc rounds) allocated head tail a = elim (Bool-cases (head == tail)) [
  | inl e ↦ rw (e, send_loop) refl
  | inr e ↦ rw (e, send_loop) (send_loop-sent rounds allocated (edunic_next head) tail _)
]

send_loop-some :
    (rounds : ℕ) (allocated : ℕ → Bool) (head tail : ℕ) (a : EdunicAdapter)
    → head ≢ tail
    → (send_loop (suc rounds) allocated head tail false a).1 ≡ true
unfolding send_loop
send_loop-some rounds allocated head tail a ne = elim (Bool-cases (head == tail)) [
  | inl e ↦ absurd (ne ((==_iff head tail).0 e))
  | inr e ↦ rw (e, send_loop) (send_loop-sent rounds allocated (edunic_next head) tail _)
]

-- The work item finds NAPI disabled: its cause is read, and nothing is scheduled.
record Late (a b : EdunicAdapter) : Type 0 where
  room_kept : room b.tx_ring ≡ room a.tx_ring
  work_done : b.work_queued ≡ false
  causes_read : b.regs.icr ≡ no_causes

finish-Late :
    (a b : EdunicAdapter) (head : ℕ) → SameRoom (take_work a) b → Late a (finish_work false head b)
unfolding finish_work edunic_tx_unused
finish-Late a b head s =
    let e = view-finish_work false head b in
    record {
      room_kept = ap (λ v. room v.ring) e ∙ s.room_same;
      work_done = ap (λ v. v.queued) e ∙ s.work_same;
      causes_read = (intr_icr false _).0;
    }

worker-Late :
    (allocated : ℕ → Bool) (a : EdunicAdapter)
    → a.regs.tdh ≢ a.regs.tdt
    → Late a (edunic_hw_tx_worker allocated false a)
unfolding edunic_hw_tx_worker
worker-Late allocated a ne =
    let loop = send_loop edunic_ring_size allocated a.regs.tdh a.regs.tdt false (take_work a) in
    rw (send_loop-some 255 allocated a.regs.tdh a.regs.tdt (take_work a) ne) (
      finish-Late a loop.2 loop.0
        (send_loop-SameRoom edunic_ring_size allocated a.regs.tdh a.regs.tdt false (take_work a)))

opened-Stuck :
    (a b : EdunicAdapter)
    → tx_has_room desc_per_pkt a ≡ false
    → Late a b
    → Stuck (edunic_open true true b).1 outside
unfolding edunic_open edunic_setup_interrupts edunic_hw_start
opened-Stuck a b e l = record {
  full = l.room_kept ∙ e;
  no_mapping = refl;
  no_work = l.work_done;
  no_napi = refl;
  no_tx = ap (λ c. c.tx) l.causes_read;
  no_rx = ap (λ c. c.rx) l.causes_read;
}

-- If an interface whose ring is full, with skbs that the chip has yet to send, is stopped before
-- the chip's work item runs, and is then opened again, it never sends anything more: the item has
-- read the cause of its interrupt while NAPI was disabled, and whatever steps follow, no skb is
-- posted, none is reclaimed, and the ring stays full.
pub reopened_lem :
    (allocated : ℕ → Bool) (a : EdunicAdapter) (m : Machine)
    → tx_has_room desc_per_pkt a ≡ false
    → a.regs.tdh ≢ a.regs.tdt
    → let b = (edunic_open true true (edunic_hw_tx_worker allocated false (edunic_stop a))).1 in
      Run (at_rest b) m
      → (m.posted ≡ [])
        × (m.adapter.tx_ring ≡ b.tx_ring)
        × (tx_has_room desc_per_pkt m.adapter ≡ false)
unfolding edunic_stop edunic_hw_stop
reopened_lem allocated a m full ne r =
    let b = (edunic_open true true (edunic_hw_tx_worker allocated false (edunic_stop a))).1 in
    let late = worker-Late allocated (edunic_stop a) ne in
    let s = Run-Stuck b m (opened-Stuck (edunic_stop a) _ full late) r in
    (
      ap (λ n. n.posted) s.is,
      ap (λ n. n.adapter.tx_ring) s.is ∙ s.same,
      ap (λ n. tx_has_room desc_per_pkt n.adapter) s.is ∙ s.stuck.full,
    )
