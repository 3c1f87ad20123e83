-- ===== src/Edunic/Machine/Whole.antt =====
-- linux_nic_lab/driver: `edunic_hw_tx_worker` and `edunic_poll` as the steps of one thread.
use linux_network_lab.Base.{
  ℕ, zero, suc, ◌+◌, ◌-◌, ◌%◌, ◌≤◌, ◌<◌, ◌≡◌, ◌≢◌, refl, sym, ap, ◌∙◌, Bool, true, false, inl, inr,
  List, arith, leb, ◌==◌, Bool-cases, ==_iff, if◌then◌else◌,
}
use mathlib.Core.Bool.{false≢true}
use linux_network_lab.Edunic.Adapter.{edunic_ring_size, edunic_next, Skb, EdunicAdapter}
use linux_network_lab.Edunic.Tx.{reclaim_done, wake_tx, edunic_clean_tx_irq}
use linux_network_lab.Edunic.Rx.{Refill, edunic_clean_rx_irq}
use linux_network_lab.Edunic.Irq.{complete_poll, edunic_poll}
use linux_network_lab.Edunic.Hw.{send_one, send_loop, finish_work, take_work, edunic_hw_tx_worker}
use linux_network_lab.Edunic.Machine.{
  XmitPc, WorkerPc, resting, working, PollPc, away, waking, receiving, completing, Machine,
  start_work, work_step, start_poll, poll_step,
}

-- The place that the next step of the work item looks at.
abbrev pub place_of : WorkerPc → ℕ
place_of resting = 0
place_of (working head tail sent) = head

abbrev pub works : ℕ → (ℕ → Bool) → Bool → Machine → Machine
works zero allocated prep m = m
works (suc n) allocated prep m =
    works n allocated prep (work_step (allocated (place_of m.worker)) prep m)

-- How far `tail` is ahead.
abbrev distance : ℕ → ℕ → ℕ
distance head tail = (tail + edunic_ring_size - head) % edunic_ring_size

module _ (x : XmitPc) (p : PollPc) (posted : List Skb) (allocated : ℕ → Bool) (prep : Bool) where
  abbrev at_work : EdunicAdapter → WorkerPc → Machine
  at_work a k = record { adapter = a; xmit = x; worker = k; poll = p; posted = posted }

  abbrev ended : ℕ × Bool × EdunicAdapter → EdunicAdapter
  ended (head, sent, a) = if sent then finish_work prep head a else a

  stays : (a : EdunicAdapter) → work_step (allocated 0) prep (at_work a resting) ≡ at_work a resting
  unfolding work_step
  stays a = refl

  rests :
      (n : ℕ) (a : EdunicAdapter) → works n allocated prep (at_work a resting) ≡ at_work a resting
  rests zero a = refl
  rests (suc n) a = ap (works n allocated prep) (stays a) ∙ rests n a

  step_end :
      (head tail : ℕ) (sent : Bool) (a : EdunicAdapter)
      → head ≡ tail
      → work_step (allocated head) prep (at_work a (working head tail sent))
        ≡ at_work (if sent then finish_work prep head a else a) resting
  unfolding work_step
  step_end head tail sent a e = let b : (head == tail) ≡ true = (==_iff head tail).1 e in rw b refl

  step_one :
      (head tail : ℕ) (sent : Bool) (a : EdunicAdapter)
      → (head == tail) ≡ false
      → work_step (allocated head) prep (at_work a (working head tail sent))
        ≡ at_work (send_one (allocated head) head a) (working (edunic_next head) tail true)
  unfolding work_step
  step_one head tail sent a b = rw b refl

  works_loop :
      (rounds head tail : ℕ) (sent : Bool) (a : EdunicAdapter)
      → head < edunic_ring_size
      → tail < edunic_ring_size
      → distance head tail ≤ rounds
      → works (suc rounds) allocated prep (at_work a (working head tail sent))
        ≡ at_work (ended (send_loop rounds allocated head tail sent a)) resting
  unfolding send_loop
  works_loop zero head tail sent a h t d = step_end head tail sent a (omega (arith, h, t, d))
  works_loop (suc rounds) head tail sent a h t d = elim (Bool-cases (head == tail)) [
    | inl e ↦
        ap (works (suc rounds) allocated prep) (step_end head tail sent a ((==_iff head tail).0 e))
        ∙ rw (e, send_loop) (rests (suc rounds) _)
    | inr e ↦
        let ne : head ≢ tail = λ z. false≢true (sym e ∙ (==_iff head tail).1 z) in
        ap (works (suc rounds) allocated prep) (step_one head tail sent a e)
        ∙ rw (e, send_loop)
            (works_loop rounds (edunic_next head) tail true (send_one (allocated head) head a)
              (omega arith) t (omega (arith, h, t, d, ne)))
  ]

  -- If no other thread runs meanwhile, a work item that starts does what `edunic_hw_tx_worker` does
  -- within 257 steps, and comes to rest.
  pub work-alone :
      (a : EdunicAdapter)
      → a.work_queued ≡ true
      → a.regs.tdh < edunic_ring_size
      → a.regs.tdt < edunic_ring_size
      → works 257 allocated prep (start_work (at_work a resting))
        ≡ at_work (edunic_hw_tx_worker allocated prep a) resting
  unfolding start_work edunic_hw_tx_worker
  work-alone a queued h t =
      ap (λ c. works 257 allocated prep (started c)) queued
      ∙ works_loop 256 a.regs.tdh a.regs.tdt false (take_work a) h t (omega arith)
    where
      started : Bool → Machine
      started c =
          if c
          then at_work (take_work a) (working a.regs.tdh a.regs.tdt false)
          else at_work a resting

second_if :
    (c : Bool) (m n : ℕ) (a b : EdunicAdapter)
    → let r : ℕ × EdunicAdapter = if c then (m, a) else (n, b) in (if c then a else b) ≡ r.1
second_if true m n a b = refl
second_if false m n a b = refl

module _ (x : XmitPc) (k : WorkerPc) (posted : List Skb) (budget : ℕ) (answers : List Refill)
    (completed : Bool) where
  abbrev polling : EdunicAdapter → PollPc → Machine
  polling a p = record { adapter = a; xmit = x; worker = k; poll = p; posted = posted }

  abbrev polls : Machine → Machine
  polls m = poll_step budget answers completed m

  last_step :
      (c : Bool) (a : EdunicAdapter)
      → polls (polling a (if c then away else completing))
        ≡ polling (if c then a else complete_poll completed a) away
  unfolding poll_step
  last_step true a = refl
  last_step false a = refl

  start_step :
      (a : EdunicAdapter)
      → a.napi_scheduled ≡ true
      → start_poll (polling a away) ≡ polling (reclaim_done a).1 (waking (reclaim_done a).0)
  unfolding start_poll
  start_step a on =
      ap (λ c. if c then polling (reclaim_done a).1 (waking (reclaim_done a).0) else polling a away)
        on

  wake_step :
      (packets : ℕ) (a : EdunicAdapter)
      → polls (polling a (waking packets)) ≡ polling (wake_tx packets a) receiving
  unfolding poll_step
  wake_step packets a = refl

  receive_step :
      (a : EdunicAdapter)
      → let (done, b) = edunic_clean_rx_irq budget answers a in
        polls (polling a receiving) ≡ polling b (if leb budget done then away else completing)
  unfolding poll_step
  receive_step a = refl

  -- If no other thread runs meanwhile, a poll that starts does in three more steps what
  -- `edunic_poll` does, and ends.
  pub poll-alone :
      (a : EdunicAdapter)
      → a.napi_scheduled ≡ true
      → polls (polls (polls (start_poll (polling a away))))
        ≡ polling (edunic_poll budget answers completed a).1 away
  unfolding edunic_poll edunic_clean_tx_irq
  poll-alone a on =
      let b = (reclaim_done a).1 in
      let c = wake_tx (reclaim_done a).0 b in
      let (done, d) = edunic_clean_rx_irq budget answers c in
      ap (λ m. polls (polls (polls m))) (start_step a on)
      ∙ ap (λ m. polls (polls m)) (wake_step (reclaim_done a).0 b)
      ∙ ap polls (receive_step c)
      ∙ last_step (leb budget done) d
      ∙ ap (λ e. polling e away)
          (second_if (leb budget done) budget done d (complete_poll completed d))
