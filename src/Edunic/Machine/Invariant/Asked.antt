-- ===== src/Edunic/Machine/Invariant/Asked.antt =====
-- linux_nic_lab/driver/nic_irq.c: once the handler has asked, NAPI is due.
use linux_network_lab.Base.{
  ◌≡◌, refl, sym, ◌∙◌, Bool, true, false, not, ◌&&◌, inl, inr, List, Bool-cases,
}
use mathlib.Core.Bool.{false≢true}
use linux_network_lab.Edunic.Adapter.{Skb}
use linux_network_lab.Edunic.Machine.{XmitPc, WorkerPc, PollPc}
use linux_network_lab.Edunic.Machine.View.{View}
use linux_network_lab.Edunic.Machine.Invariant.{Due, in_poll, Inv}
use linux_network_lab.Edunic.Machine.Handler.{asked}

pub not_in_poll :
    {v : View} {x : XmitPc} {k : WorkerPc} {p : PollPc} {posted : List Skb}
    → Inv v x k p posted
    → v.scheduled ≡ false
    → in_poll p ≡ false
not_in_poll {p} i e = elim (Bool-cases (in_poll p)) [
  | inl b ↦ absurd (false≢true (sym e ∙ i.polled b))
  | inr b ↦ b
]

pub never : (b : Bool) → (b && not true) ≡ false
never true = refl
never false = refl

pub flipped : (b c : Bool) → c ≡ not b → b ≡ not c
flipped true c e = rw e refl
flipped false c e = rw e refl

-- After the handler has asked, NAPI is due.
module _ {v : View} {x : XmitPc} {k : WorkerPc} {p : PollPc} {posted : List Skb}
    (i : Inv v x k p posted) where
  asked_true-Inv :
      v.scheduled ≡ false → Inv (record v { scheduled = true }) x k p posted × Due true v.missed p
  asked_true-Inv e =
      let due : Due true v.missed p = (refl, rw (not_in_poll i e) refl) in
      (
        record {
          q = i.q;
          d = i.d;
          flight = i.flight;
          tail_at = i.tail_at;
          work = i.work;
          pending = λ z. inl due;
          polled = λ z. refl;
          opens = i.opens;
          room_left = i.room_left;
          all = i.all;
        },
        due,
      )

  asked_false-Inv :
      v.scheduled ≡ true → Inv (record v { missed = true }) x k p posted × Due v.scheduled true p
  asked_false-Inv e =
      let due : Due v.scheduled true p = (e, never (in_poll p)) in
      (
        record {
          q = i.q;
          d = i.d;
          flight = i.flight;
          tail_at = i.tail_at;
          work = i.work;
          pending = λ z. inl due;
          polled = i.polled;
          opens = i.opens;
          room_left = i.room_left;
          all = i.all;
        },
        due,
      )

pub asked-Inv :
    {v : View} {x : XmitPc} {k : WorkerPc} {p : PollPc} {posted : List Skb} (prep : Bool)
    → Inv v x k p posted
    → prep ≡ not v.scheduled
    → Inv (asked prep v) x k p posted × Due (asked prep v).scheduled (asked prep v).missed p
asked-Inv {v} true i e = asked_true-Inv i (flipped v.scheduled true e)
asked-Inv {v} false i e = asked_false-Inv i (flipped v.scheduled false e)
