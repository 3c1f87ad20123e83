-- ===== src/Edunic/Machine/Quiet.antt =====
-- linux_nic_lab/driver: the threads from the opening of the interface on, and when they come to
-- rest.
use linux_network_lab.Base.{
  ℕ, ◌≡◌, refl, sym, ap, subst, ◌∙◌, Bool, true, false, inl, inr, List, [], ◌∷◌, ◌++◌, append-nil,
  arith, length,
}
use mathlib.Core.Bool.{false≢true}
use native.Mathlib.Decide.{dec_lt}
use linux_network_lab.Edunic.Adapter.{EdunicAdapter, Skb}
use linux_network_lab.Edunic.Hw.{edunic_hw_init_rings, edunic_hw_start, edunic_open}
use linux_network_lab.Edunic.Irq.{edunic_setup_interrupts}
use linux_network_lab.Edunic.Pci.{fresh_tx_ring}
use linux_network_lab.Edunic.Machine.{
  outside, resting, away, Machine, Turn, call_xmit, xmit_turn, worker_starts, worker_turn,
  poll_starts, poll_turn, link_timer, turn, Promised, Run, here, next,
}
use linux_network_lab.Edunic.Machine.View.{View, view}
use linux_network_lab.Edunic.Machine.Invariant.{Inv, Sound}
use linux_network_lab.Edunic.Machine.Invariant.Xmit.{call_step-Sound, xmit_step-Sound}
use linux_network_lab.Edunic.Machine.Invariant.Work.{
  start_work-Sound, work_step-Sound, link_timer-Sound,
}
use linux_network_lab.Edunic.Machine.Invariant.Poll.{start_poll-Sound, poll_step-Sound}

turn-Sound : (t : Turn) (m : Machine) → Promised t m → Sound m → Sound (turn t m)
unfolding turn
turn-Sound (call_xmit skb ans) m e s =
    call_step-Sound m.adapter m.worker m.poll m.posted skb ans m.xmit s
turn-Sound xmit_turn m e s = xmit_step-Sound m.adapter m.worker m.poll m.posted m.xmit s
turn-Sound worker_starts m e s = start_work-Sound m.adapter m.xmit m.poll m.posted m.worker s
turn-Sound (worker_turn allocated prep) m e s =
    work_step-Sound m.adapter m.xmit m.poll m.posted allocated prep m.worker e s
turn-Sound poll_starts m e s = start_poll-Sound m.adapter m.xmit m.worker m.posted m.poll s
turn-Sound (poll_turn budget answers completed) m e s =
    poll_step-Sound m.adapter m.xmit m.worker m.posted budget answers completed m.poll e s
turn-Sound (link_timer prep) m e s =
    link_timer-Sound m.adapter m.xmit m.poll m.posted prep m.worker e s

run-Sound : {m n : Machine} → Run m n → Sound m → Sound n
run-Sound here s = s
run-Sound (next r t e) s = turn-Sound t _ e (run-Sound r s)

-- The threads at rest on an adapter.
abbrev pub at_rest : EdunicAdapter → Machine
at_rest a = record { adapter = a; xmit = outside; worker = resting; poll = away; posted = [] }

-- An interface whose rings are set up, and which is then opened.
abbrev pub opened : ℕ → EdunicAdapter → EdunicAdapter
opened dma a =
    (edunic_open true true (edunic_hw_init_rings (record a { tx_ring = fresh_tx_ring dma }))).1

opened-Sound : (dma : ℕ) (a : EdunicAdapter) → a.consumed ≡ [] → Sound (at_rest (opened dma a))
unfolding edunic_open edunic_setup_interrupts edunic_hw_init_rings edunic_hw_start
opened-Sound dma a none_consumed = record {
  q = [];
  d = 0;
  flight = record {
    clean_in = omega arith;
    fits = omega arith;
    use_at = omega arith;
    head_at = omega arith;
    sent = omega arith;
    done = λ i k hk z. absurd (omega (arith, hk));
    waits = λ i k hd hk z. absurd (omega (arith, hk));
    held = λ i k hk z. absurd (omega (arith, hk));
  };
  tail_at = refl;
  work = λ z. absurd (omega (arith, z));
  pending = λ z. absurd (omega (arith, z));
  polled = λ z. absurd (false≢true z);
  opens = λ z. absurd (false≢true z);
  room_left = λ z. absurd (false≢true z);
  all = sym (append-nil _ ∙ none_consumed);
}

-- In whatever order the stack, the chip's work item, NAPI and the link timer take their steps, the
-- ring of an opened interface holds exactly the skbs that were posted and not yet freed, in order;
-- the skbs that wait to be sent have a work item, those that were sent have NAPI due or a running
-- work item that will ask for it, and a stopped queue has a full ring or is about to be woken.
pub Run-Sound :
    (dma : ℕ) (a : EdunicAdapter) (m : Machine)
    → a.consumed ≡ []
    → Run (at_rest (opened dma a)) m
    → Sound m
Run-Sound dma a m c r = run-Sound r (opened-Sound dma a c)

-- Nothing runs, is queued, or is on the schedule.
pub record Quiet (m : Machine) : Type 0 where
  pub no_xmit : m.xmit ≡ outside
  pub no_worker : m.worker ≡ resting
  pub no_poll : m.poll ≡ away
  pub no_work : m.adapter.work_queued ≡ false
  pub no_napi : m.adapter.napi_scheduled ≡ false

none_left : (q : List Skb) → length q ≡ 0 → q ≡ []
none_left [] e = refl
none_left (x ∷ q) e = absurd (omega (arith, e))

none_sent :
    {v : View} {posted : List Skb} (i : Inv v outside resting away posted)
    → v.scheduled ≡ false
    → i.d ≡ 0
none_sent i e = elim (dec_lt 0 i.d) [
  | no z ↦ omega (arith, z)
  | yes z ↦ elim (i.pending z) [
    | inl due ↦ absurd (false≢true (sym e ∙ due.0))
    | inr s ↦ absurd (false≢true s)
  ]
]

none_waits :
    {v : View} {posted : List Skb} (i : Inv v outside resting away posted)
    → v.queued ≡ false
    → length i.q ≡ i.d
none_waits i e = elim (dec_lt i.d (length i.q)) [
  | no z ↦ omega (arith, z, i.flight.sent)
  | yes z ↦ absurd (false≢true (sym e ∙ i.work z))
]

still_open :
    {v : View} {posted : List Skb} (stopped : Bool) (i : Inv v outside resting away posted)
    → v.stopped ≡ stopped
    → length i.q ≡ 0
    → stopped ≡ false
still_open false i e l = refl
still_open true i e l = elim (i.opens e) [
  | inl soon ↦ absurd (false≢true soon)
  | inr full ↦ absurd (omega (arith, full, l))
]

-- Once the threads of an opened interface have come to rest, whatever they did before, all skbs
-- that were posted have been freed, in order, the ring is empty, and the queue is open.
pub Run-Quiet :
    (dma : ℕ) (a : EdunicAdapter) (m : Machine)
    → a.consumed ≡ []
    → Run (at_rest (opened dma a)) m
    → Quiet m
    → (m.adapter.consumed ≡ m.posted)
      × (m.adapter.tx_ring.next_to_clean ≡ m.adapter.tx_ring.next_to_use)
      × (m.adapter.queue_stopped ≡ false)
Run-Quiet dma a m c r quiet =
    let v = view m.adapter in
    let i : Inv v outside resting away m.posted =
      subst (λ p. Inv v outside resting p m.posted) quiet.no_poll
        (subst (λ k. Inv v outside k m.poll m.posted) quiet.no_worker
          (subst (λ x. Inv v x m.worker m.poll m.posted) quiet.no_xmit (Run-Sound dma a m c r))) in
    let l : length i.q ≡ 0 = none_waits i quiet.no_work ∙ none_sent i quiet.no_napi in
    (
      sym (i.all ∙ ap (λ q. m.adapter.consumed ++ q) (none_left i.q l) ∙ append-nil _),
      omega (arith, i.flight.use_at, i.flight.clean_in, l),
      still_open m.adapter.queue_stopped i refl l,
    )
