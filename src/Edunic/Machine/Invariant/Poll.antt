-- ===== src/Edunic/Machine/Invariant/Poll.antt =====
-- linux_nic_lab/driver/nic_irq.c: the steps of `edunic_poll` keep the invariant.
use linux_network_lab.Base.{
  ℕ, zero, suc, ◌+◌, ◌<◌, ◌≡◌, refl, sym, ap, ◌∙◌, Bool, true, false, not, ◌&&◌, ◌⊎◌, inl, inr,
  List, ◌++◌, append_assoc, arith, length, take, drop, length-drop, take-append-drop, ◌==◌,
  if◌then◌else◌,
}
use mathlib.Core.Bool.{false≢true}
use linux_network_lab.Edunic.Adapter.{Skb, EdunicAdapter}
use linux_network_lab.Edunic.Tx.{reclaim_done, wake_tx}
use linux_network_lab.Edunic.Rx.{Refill}
use linux_network_lab.Edunic.Irq.{complete_poll}
use linux_network_lab.Edunic.Machine.{
  XmitPc, WorkerPc, resting, working, PollPc, away, waking, receiving, completing, Machine,
  start_poll, poll_step,
}
use linux_network_lab.Edunic.Machine.View.{View, view, view-clean_rx_irq}
use linux_network_lab.Edunic.Machine.Reclaim.{AllReclaimed, reclaim_done_lem}
use linux_network_lab.Edunic.Machine.Handler.{always}
use linux_network_lab.Edunic.Machine.Invariant.{
  Working, Due, Opens, is_rechecking, head_of, in_poll, has_sent, Inv, Sound,
}
use linux_network_lab.Edunic.Machine.Invariant.Woken.{woken, view-wake_tx, woken-Opens, not-Due}

-- Where the poll goes on to; the queue may be woken.
module _ {v : View} {x : XmitPc} {k : WorkerPc} {p : PollPc} {posted : List Skb} where
  at_poll :
      (stopped scheduled missed : Bool) (p' : PollPc) (i : Inv v x k p posted)
      → (0 < i.d → Due scheduled missed p' ⊎ (has_sent k ≡ true))
      → (in_poll p' ≡ true → scheduled ≡ true)
      → (stopped ≡ true → Opens x p' (length i.q))
      → Inv (record v { stopped = stopped; scheduled = scheduled; missed = missed }) x k p' posted
  at_poll stopped scheduled missed p' i pending polled opens = record {
    q = i.q;
    d = i.d;
    flight = i.flight;
    tail_at = i.tail_at;
    work = i.work;
    pending = pending;
    polled = polled;
    opens = opens;
    room_left = i.room_left;
    all = i.all;
  }

drop-Working :
    (k : WorkerPc) (queued : Bool) (tdh d n m : ℕ)
    → m + d ≡ n
    → Working queued tdh k n d
    → Working queued tdh k m 0
drop-Working resting queued tdh d n m e w = λ l. w (omega (arith, e, l))
drop-Working (working head tail sent) queued tdh d n m e (j, t, l, c, s) =
    (j, t, omega (arith, e, l), (λ z. c (omega (arith, e, z))), s)

-- After the cleaning the queue will be woken, if anything was reclaimed.
drop-Opens :
    (x : XmitPc) (d : ℕ) (q : List Skb)
    → Opens x away (length q)
    → Opens x (waking d) (length (drop d q))
drop-Opens x zero q (inl e) = inl e
drop-Opens x zero q (inr e) = inr e
drop-Opens x (suc d) q o =
    let some_left : not (suc d == 0) ≡ true = ground arith in
    inl (rw some_left (always (is_rechecking x)))

reclaimed-Inv :
    (a b : EdunicAdapter) (x : XmitPc) (k : WorkerPc) (posted : List Skb)
    (i : Inv (view a) x k away posted)
    → AllReclaimed a b (head_of a.regs.tdh k) i.q i.d
    → a.napi_scheduled ≡ true
    → Inv (view b) x k (waking i.d) posted
reclaimed-Inv a b x k posted i r on =
    let n = length-drop i.d i.q in
    rw r.same (record {
      q = drop i.d i.q;
      d = 0;
      flight = r.flight;
      tail_at = omega (
        arith, n, i.tail_at, i.flight.use_at, i.flight.head_at, i.flight.sent, r.flight.use_at,
        r.flight.head_at,
      );
      work =
          drop-Working k a.work_queued a.regs.tdh i.d (length i.q) _
            (omega (arith, n, i.flight.sent)) i.work;
      pending = λ z. absurd (omega (arith, z));
      polled = λ z. on;
      opens = λ e. drop-Opens x i.d i.q (i.opens e);
      room_left = λ e. omega (arith, n, i.room_left e);
      all =
          i.all
          ∙ ap (λ o. a.consumed ++ o) (sym (take-append-drop i.d i.q))
          ∙ sym (append_assoc a.consumed (take i.d i.q) (drop i.d i.q));
    })

module _ (a : EdunicAdapter) (x : XmitPc) (k : WorkerPc) (posted : List Skb) where
  started-Sound :
      (c : Bool)
      → a.napi_scheduled ≡ c
      → Inv (view a) x k away posted
      → let m : Machine = record {
        adapter = a;
        xmit = x;
        worker = k;
        poll = away;
        posted = posted;
      } in
        Sound (
          if c
          then record m { adapter = (reclaim_done a).1; poll = waking (reclaim_done a).0 }
          else m)
  started-Sound false e i = i
  started-Sound true e i =
      let (n, r) = reclaim_done_lem a _ i.d i.q i.flight in
      rw n (reclaimed-Inv a _ x k posted i r e)

  pub start_poll-Sound :
      (p : PollPc)
      → Inv (view a) x k p posted
      → Sound (start_poll (record { adapter = a; xmit = x; worker = k; poll = p; posted = posted }))
  unfolding start_poll
  start_poll-Sound away i = started-Sound a.napi_scheduled refl i
  start_poll-Sound (waking packets) i = i
  start_poll-Sound receiving i = i
  start_poll-Sound completing i = i

  waking-Inv :
      (packets : ℕ)
      → Inv (view a) x k (waking packets) posted
      → Inv (view (wake_tx packets a)) x k receiving posted
  waking-Inv packets i = rw (view-wake_tx packets a) (
      at_poll (woken packets a) a.napi_scheduled a.napi_missed receiving i i.pending i.polled
        (woken-Opens packets a x k posted i))

  received-Inv :
      (c : Bool)
      → Inv (view a) x k receiving posted
      → Inv (view a) x k (if c then away else completing) posted
  received-Inv true i =
      at_poll a.queue_stopped a.napi_scheduled a.napi_missed away i (λ z. inl (i.polled refl, refl))
        (λ z. absurd (false≢true z)) i.opens
  received-Inv false i =
      at_poll a.queue_stopped a.napi_scheduled a.napi_missed completing i i.pending i.polled i.opens

  completed-Inv :
      (completed : Bool)
      → (completed && a.napi_missed) ≡ false
      → Inv (view a) x k completing posted
      → Inv (view (complete_poll completed a)) x k away posted
  unfolding complete_poll
  completed-Inv true e i =
      at_poll a.queue_stopped false a.napi_missed away i
        (λ z. inr (not-Due a.napi_scheduled a.napi_missed k e (i.pending z)))
        (λ z. absurd (false≢true z)) i.opens
  completed-Inv false e i =
      at_poll a.queue_stopped a.napi_scheduled false away i (λ z. inl (i.polled refl, refl))
        (λ z. absurd (false≢true z)) i.opens

  pub poll_step-Sound :
      (budget : ℕ) (answers : List Refill) (completed : Bool) (p : PollPc)
      → (completed && a.napi_missed) ≡ false
      → Inv (view a) x k p posted
      → Sound (
          poll_step budget answers completed
            (record { adapter = a; xmit = x; worker = k; poll = p; posted = posted }))
  unfolding poll_step
  poll_step-Sound budget answers completed away e i = i
  poll_step-Sound budget answers completed (waking packets) e i = waking-Inv packets i
  poll_step-Sound budget answers completed receiving e i =
      rw (view-clean_rx_irq budget answers a) (received-Inv _ i)
  poll_step-Sound budget answers completed completing e i = completed-Inv completed e i
