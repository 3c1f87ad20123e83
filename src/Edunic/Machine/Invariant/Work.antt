-- ===== src/Edunic/Machine/Invariant/Work.antt =====
-- linux_nic_lab/driver/nic_hw.c: the steps of `edunic_hw_tx_worker` and the link timer keep the
-- invariant.
use linux_network_lab.Base.{
  ℕ, suc, ◌-◌, ◌<◌, ◌≡◌, ◌≢◌, refl, sym, subst, ◌∙◌, Bool, true, false, not, ◌⊎◌, inl, inr, List,
  arith, length, ◌==◌, if◌then◌else◌, Bool-cases, ==_iff,
}
use mathlib.Core.Bool.{false≢true}
use native.Mathlib.Decide.{dec_lt}
use linux_network_lab.Edunic.Adapter.{edunic_next, Skb, EdunicAdapter}
use linux_network_lab.Edunic.Hw.{send_one, finish_work, take_work, edunic_link_timer_fn}
use linux_network_lab.Edunic.Machine.{
  XmitPc, WorkerPc, resting, working, PollPc, Machine, start_work, work_step,
}
use linux_network_lab.Edunic.Machine.View.{View, view}
use linux_network_lab.Edunic.Machine.Flight.{marked, marked-Flight}
use linux_network_lab.Edunic.Machine.Invariant.{Due, Inv, Sound}
use linux_network_lab.Edunic.Machine.Handler.{
  view-finish_work, intr_cases, asked-tdh, view-send_one,
}
use linux_network_lab.Edunic.Machine.Invariant.Asked.{asked-Inv}

-- The work item comes to rest with its position in TDH.
rested-Inv :
    {v : View} {x : XmitPc} {p : PollPc} {posted : List Skb} {head tail : ℕ} {sent : Bool}
    (i : Inv v x (working head tail sent) p posted)
    → head ≡ tail
    → (0 < i.d → Due v.scheduled v.missed p)
    → Inv (record v { tdh = head }) x resting p posted
rested-Inv i e due = record {
  q = i.q;
  d = i.d;
  flight = i.flight;
  tail_at = i.tail_at;
  work =
      let (n, t, l, c, s) = i.work in
      λ z. c (omega (arith, z, t, e, l, i.flight.fits, i.flight.head_at));
  pending = λ z. inl (due z);
  polled = i.polled;
  opens = i.opens;
  room_left = i.room_left;
  all = i.all;
}

-- The chip has sent one more skb.
sent-Inv :
    {v : View} {x : XmitPc} {p : PollPc} {posted : List Skb} {head tail : ℕ} {sent : Bool}
    → Inv v x (working head tail sent) p posted
    → head ≢ tail
    → Inv (record v { ring = marked head v.ring }) x (working (edunic_next head) tail true) p posted
sent-Inv {head} {tail} i ne =
    let (n, t, l, c, s) = i.work in
    let more : 0 < n = elim (dec_lt 0 n) [
      | yes z ↦ z
      | no z ↦ absurd (ne (omega (arith, z, t, i.flight.head_at)))
    ] in
    record {
      q = i.q;
      d = suc i.d;
      flight = marked-Flight i.flight (omega (arith, more, l));
      tail_at = i.tail_at;
      work = (
        n - 1,
        omega (arith, t, more),
        omega (arith, l, more),
        (λ z. c (omega (arith, z, more))),
        (λ z. absurd (false≢true (sym z))),
      );
      pending = λ z. inr refl;
      polled = i.polled;
      opens = i.opens;
      room_left = i.room_left;
      all = i.all;
    }

started-Inv :
    {v : View} {x : XmitPc} {p : PollPc} {posted : List Skb}
    → Inv v x resting p posted
    → Inv (record v { queued = false }) x (working v.tdh v.tdt false) p posted
started-Inv {v} i = record {
  q = i.q;
  d = i.d;
  flight = i.flight;
  tail_at = i.tail_at;
  work = (
    length i.q - i.d,
    omega (arith, i.tail_at, i.flight.use_at, i.flight.head_at, i.flight.sent),
    omega (arith, i.flight.sent),
    (λ z. absurd (omega (arith, z, i.flight.sent))),
    (λ z. refl),
  );
  pending = i.pending;
  polled = i.polled;
  opens = i.opens;
  room_left = i.room_left;
  all = i.all;
}

unsent-Due :
    (scheduled missed : Bool) (p : PollPc)
    → Due scheduled missed p ⊎ (false ≡ true)
    → Due scheduled missed p
unsent-Due scheduled missed p (inl due) = due
unsent-Due scheduled missed p (inr e) = absurd (false≢true e)

module _ (a : EdunicAdapter) (x : XmitPc) (p : PollPc) (posted : List Skb) where
  started-Sound :
      (c : Bool)
      → Inv (view a) x resting p posted
      → let m : Machine = record {
        adapter = a;
        xmit = x;
        worker = resting;
        poll = p;
        posted = posted;
      } in
        Sound (
          if c
          then record m { adapter = take_work a; worker = working a.regs.tdh a.regs.tdt false }
          else m)
  started-Sound true i = started-Inv i
  started-Sound false i = i

  pub start_work-Sound :
      (k : WorkerPc)
      → Inv (view a) x k p posted
      → Sound (start_work (record { adapter = a; xmit = x; worker = k; poll = p; posted = posted }))
  unfolding start_work
  start_work-Sound (working head tail sent) i = i
  start_work-Sound resting i = started-Sound a.work_queued i

  finish-Sound :
      (prep : Bool) (head tail : ℕ) (sent : Bool)
      → prep ≡ not a.napi_scheduled
      → head ≡ tail
      → Inv (view a) x (working head tail sent) p posted
      → Inv (view (if sent then finish_work prep head a else a)) x resting p posted
  finish-Sound prep head tail true promise e i =
      let (j, due) = asked-Inv prep i promise in
      rw (view-finish_work prep head a ∙ asked-tdh prep head (view a)) (rested-Inv j e (λ z. due))
  finish-Sound prep head tail false promise e i =
      let (n, t, l, c, s) = i.work in
      subst (λ h. Inv (record (view a) { tdh = h }) x resting p posted) (s refl)
        (rested-Inv i e (λ z. unsent-Due a.napi_scheduled a.napi_missed p (i.pending z)))

  sent-Sound :
      (allocated : Bool) (head tail : ℕ) (sent : Bool)
      → head ≢ tail
      → Inv (view a) x (working head tail sent) p posted
      → Inv (view (send_one allocated head a)) x (working (edunic_next head) tail true) p posted
  sent-Sound allocated head tail sent ne i = rw (view-send_one allocated head a) (sent-Inv i ne)

  pub work_step-Sound :
      (allocated prep : Bool) (k : WorkerPc)
      → prep ≡ not a.napi_scheduled
      → Inv (view a) x k p posted
      → Sound (
          work_step allocated prep
            (record { adapter = a; xmit = x; worker = k; poll = p; posted = posted }))
  unfolding work_step
  work_step-Sound allocated prep resting promise i = i
  work_step-Sound allocated prep (working head tail sent) promise i =
      elim (Bool-cases (head == tail)) [
        | inl e ↦ rw e (finish-Sound prep head tail sent promise ((==_iff head tail).0 e) i)
        | inr e ↦ rw e (
            sent-Sound allocated head tail sent (λ z. false≢true (sym e ∙ (==_iff head tail).1 z))
              i)
      ]

  pub link_timer-Sound :
      (prep : Bool) (k : WorkerPc)
      → prep ≡ not a.napi_scheduled
      → Inv (view a) x k p posted
      → Inv (view (edunic_link_timer_fn prep a)) x k p posted
  unfolding edunic_link_timer_fn
  link_timer-Sound prep k promise i =
      elim (intr_cases prep (record a {
        timer_armed = false;
        link_up = true;
        regs = record a.regs { linkup = true; icr = record a.regs.icr { lsc = true } };
      })) [ inl e ↦ rw e i | inr e ↦ rw e (asked-Inv prep i promise).0 ]
