-- ===== src/Edunic/Machine/Invariant/Xmit.antt =====
-- linux_nic_lab/driver/nic_tx.c: the steps of `edunic_start_xmit` keep the invariant.
use linux_network_lab.Base.{
  ℕ, ◌<◌, ◌≡◌, refl, sym, ap, ◌∙◌, Bool, true, false, ◌⊎◌, inl, inr, List, [], ◌∷◌, ◌++◌,
  append_assoc, arith, length, length-append, Bool-cases,
}
use mathlib.Core.Bool.{false≢true}
use native.Mathlib.Decide.{dec_lt}
use linux_network_lab.NetDevice.Tx.{DmaAnswer}
use linux_network_lab.Edunic.Adapter.{Skb, EdunicAdapter}
use linux_network_lab.Edunic.Tx.{tx_has_room, desc_per_pkt, post_skb, count_tx_error}
use linux_network_lab.Edunic.Machine.{
  Next, to_map, to_return, XmitPc, outside, checking, stopping, rechecking, mapping, WorkerPc,
  resting, working, PollPc, go_on, xmit_step, call_step,
}
use linux_network_lab.Edunic.Machine.View.{View, view}
use linux_network_lab.Edunic.Machine.Flight.{room_iff, post_skb-Flight}
use linux_network_lab.Edunic.Machine.Invariant.{Working, Opens, is_mapping, Inv, Sound}

module _ {v : View} {x : XmitPc} {k : WorkerPc} {p : PollPc} {posted : List Skb} where
  -- The queue is stopped or woken, or neither.
  at_pc :
      (stopped : Bool) (x' : XmitPc) (i : Inv v x k p posted)
      → (stopped ≡ true → Opens x' p (length i.q))
      → (is_mapping x' ≡ true → length i.q < 255)
      → Inv (record v { stopped = stopped }) x' k p posted
  at_pc stopped x' i opens room = record {
    q = i.q;
    d = i.d;
    flight = i.flight;
    tail_at = i.tail_at;
    work = i.work;
    pending = i.pending;
    polled = i.polled;
    opens = opens;
    room_left = room;
    all = i.all;
  }

-- A test that finds room, and one that does not.
module _ {v : View} {k : WorkerPc} {p : PollPc} {posted : List Skb} where
  go_on-Inv :
      (n : Next) (i : Inv v (checking n) k p posted) → length i.q < 255 → Inv v (go_on n) k p posted
  go_on-Inv (to_map skb ans) i l = at_pc v.stopped (mapping skb ans) i i.opens (λ e. l)
  go_on-Inv to_return i l = at_pc v.stopped outside i i.opens (λ e. l)

  woken-Inv :
      (n : Next) (i : Inv v (rechecking n) k p posted)
      → length i.q < 255
      → Inv (record v { stopped = false }) (go_on n) k p posted
  woken-Inv (to_map skb ans) i l =
      at_pc false (mapping skb ans) i (λ e. absurd (false≢true e)) (λ e. l)
  woken-Inv to_return i l = at_pc false outside i (λ e. absurd (false≢true e)) (λ e. l)

pub room_cases :
    (a : EdunicAdapter) {x : XmitPc} {k : WorkerPc} {p : PollPc} {posted : List Skb}
    (i : Inv (view a) x k p posted)
    → ((tx_has_room desc_per_pkt a ≡ true) × (length i.q < 255))
      ⊎ ((tx_has_room desc_per_pkt a ≡ false) × (length i.q ≡ 255))
room_cases a i = elim (Bool-cases (tx_has_room desc_per_pkt a)) [
  | inl e ↦ inl (e, (room_iff a i.flight).0 e)
  | inr e ↦ elim (dec_lt (length i.q) 255) [
    | yes l ↦ absurd (false≢true (sym e ∙ (room_iff a i.flight).1 l))
    | no l ↦ inr (e, omega (arith, l, i.flight.fits))
  ]
]

post_skb-Working :
    (k : WorkerPc) (queued : Bool) (tdh d : ℕ) (q : List Skb) (skb : Skb)
    → Working queued tdh k (length q) d
    → Working true tdh k (length (q ++ skb ∷ [])) d
post_skb-Working resting queued tdh d q skb w = λ l. refl
post_skb-Working (working head tail sent) queued tdh d q skb (n, t, l, c, s) =
    (n, t, omega (arith, l, length-append q (skb ∷ [])), (λ z. refl), s)

post_skb-Inv :
    (a : EdunicAdapter) (skb : Skb) (ans : DmaAnswer) (k : WorkerPc) (p : PollPc)
    (posted : List Skb)
    → Inv (view a) (mapping skb ans) k p posted
    → Inv (view (post_skb skb ans.address a)) (checking to_return) k p (posted ++ skb ∷ [])
unfolding post_skb
post_skb-Inv a skb ans k p posted i = record {
  q = i.q ++ skb ∷ [];
  d = i.d;
  flight = post_skb-Flight a i.flight skb ans.address (i.room_left refl);
  tail_at = refl;
  work = post_skb-Working k a.work_queued a.regs.tdh i.d i.q skb i.work;
  pending = i.pending;
  polled = i.polled;
  opens = λ e. elim (i.opens e) [
    | inl soon ↦ inl soon
    | inr full ↦ absurd (omega (arith, full, i.room_left refl))
  ];
  room_left = λ e. absurd (false≢true e);
  all = ap (λ o. o ++ skb ∷ []) i.all ∙ append_assoc a.consumed i.q (skb ∷ []);
}

dropped :
    (a : EdunicAdapter) (skb : Skb) (ans : DmaAnswer) (k : WorkerPc) (p : PollPc)
    (posted : List Skb)
    → Inv (view a) (mapping skb ans) k p posted
    → Inv (view (count_tx_error skb a)) outside k p posted
unfolding count_tx_error
dropped a skb ans k p posted i =
    at_pc a.queue_stopped outside i i.opens (λ z. absurd (false≢true z))

module _ (a : EdunicAdapter) (k : WorkerPc) (p : PollPc) (posted : List Skb) where
  pub call_step-Sound :
      (skb : Skb) (ans : DmaAnswer) (x : XmitPc)
      → Inv (view a) x k p posted
      → Sound (
          call_step skb ans
            (record { adapter = a; xmit = x; worker = k; poll = p; posted = posted }))
  unfolding call_step
  call_step-Sound skb ans outside i = at_pc a.queue_stopped _ i i.opens (λ e. absurd (false≢true e))
  call_step-Sound skb ans (checking next) i = i
  call_step-Sound skb ans (stopping next) i = i
  call_step-Sound skb ans (rechecking next) i = i
  call_step-Sound skb ans (mapping skb' ans') i = i

  pub xmit_step-Sound :
      (x : XmitPc)
      → Inv (view a) x k p posted
      → Sound (xmit_step (record { adapter = a; xmit = x; worker = k; poll = p; posted = posted }))
  unfolding xmit_step
  xmit_step-Sound outside i = i
  xmit_step-Sound (checking next) i = elim (room_cases a i) [
    | inl (e, l) ↦ rw e (go_on-Inv next i l)
    | inr (e, l) ↦
        rw e (at_pc a.queue_stopped (stopping next) i i.opens (λ z. absurd (false≢true z)))
  ]
  xmit_step-Sound (stopping next) i =
      at_pc true (rechecking next) i (λ e. inl refl) (λ z. absurd (false≢true z))
  xmit_step-Sound (rechecking (to_map skb ans)) i = elim (room_cases a i) [
    | inl (e, l) ↦ rw e (woken-Inv (to_map skb ans) i l)
    | inr (e, l) ↦ rw e (at_pc a.queue_stopped outside i (λ z. inr l) (λ z. absurd (false≢true z)))
  ]
  xmit_step-Sound (rechecking to_return) i = elim (room_cases a i) [
    | inl (e, l) ↦ rw e (woken-Inv to_return i l)
    | inr (e, l) ↦ rw e (at_pc a.queue_stopped outside i (λ z. inr l) (λ z. absurd (false≢true z)))
  ]
  xmit_step-Sound (mapping skb ans) i = elim (Bool-cases ans.mapped) [
    | inl e ↦ rw e (post_skb-Inv a skb ans k p posted i)
    | inr e ↦ rw e (dropped a skb ans k p posted i)
  ]
