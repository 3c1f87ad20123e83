-- ===== src/Edunic/Machine/Sent.antt =====
-- linux_nic_lab/driver/nic_hw.c: what `edunic_hw_tx_worker` sends.
use linux_network_lab.Base.{
  ℕ, zero, suc, ◌+◌, ◌-◌, ◌%◌, ◌≤◌, ◌<◌, ◌≡◌, ◌≢◌, refl, sym, ap, subst, ◌∙◌, Bool, true, false,
  inl, inr, List, arith, ◌==◌, Bool-cases, ==_iff, if◌then◌else◌,
}
use mathlib.Core.Bool.{false≢true}
use native.Mathlib.Decide.{ℕ_discrete}
use linux_network_lab.Edunic.Adapter.{
  edunic_ring_size, edunic_next, update_self, update_ne, Skb, EdunicTxDesc, EdunicTxRing,
  EdunicAdapter,
}
use linux_network_lab.Edunic.Hw.{send_one, send_loop, finish_work, take_work, edunic_hw_tx_worker}
use linux_network_lab.Edunic.Machine.{XmitPc, resting, PollPc, start_work}
use linux_network_lab.Edunic.Machine.View.{View, view}
use linux_network_lab.Edunic.Machine.Flight.{marked}
use linux_network_lab.Edunic.Machine.Handler.{asked, view-send_one, view-finish_work}
use linux_network_lab.Edunic.Machine.Whole.{works, work-alone}

-- How many places `j` is behind `head` in the ring.
abbrev pub behind : ℕ → ℕ → ℕ
behind head j = (j + edunic_ring_size - head) % edunic_ring_size

abbrev pub mark : EdunicTxDesc → EdunicTxDesc
mark t = record t { finished = true }

-- The descriptors from `head` up to `tail` are marked as sent, and no other has changed.
pub record Sent (head tail : ℕ) (before after : EdunicTxRing) : Type 0 where
  pub marks :
      (j : ℕ)
      → j < edunic_ring_size
      → behind head j < behind head tail
      → after.desc j ≡ mark (before.desc j)
  pub others :
      (j : ℕ)
      → j < edunic_ring_size
      → behind head tail ≤ behind head j
      → after.desc j ≡ before.desc j

none-Sent :
    (head tail : ℕ) (r : EdunicTxRing) → head < edunic_ring_size → head ≡ tail → Sent head tail r r
none-Sent head tail r h e = record {
  marks = λ j hj l. absurd (omega (arith, l, e, h));
  others = λ j hj l. refl;
}

one-Sent :
    (head tail : ℕ) (r after : EdunicTxRing)
    → head < edunic_ring_size
    → tail < edunic_ring_size
    → head ≢ tail
    → Sent (edunic_next head) tail (marked head r) after
    → Sent head tail r after
one-Sent head tail r after h t n s =
    let v = mark (r.desc head) in
    record {
      marks = λ j hj l. elim (ℕ_discrete head j) [
        | yes here ↦
            s.others j hj (omega (arith, h, t, n, hj, here))
            ∙ update_self r.desc head v j here
            ∙ ap (λ i. mark (r.desc i)) here
        | no away ↦
            s.marks j hj (omega (arith, h, t, n, hj, away, l))
            ∙ ap mark (update_ne r.desc head v j away)
      ];
      others = λ j hj l.
          let away : head ≢ j = λ e. omega (arith, h, t, n, hj, l, e) in
          s.others j hj (omega (arith, h, t, n, hj, l, away)) ∙ update_ne r.desc head v j away;
    }

-- The loop ends at the tail, and has sent something if it was not there already.
record LoopSent (head tail : ℕ) (sent : Bool) (a : EdunicAdapter) (r : ℕ × Bool × EdunicAdapter)
    : Type 0 where
  pub ends : r.0 ≡ tail
  pub some_sent : head ≢ tail → r.1 ≡ true
  pub none_sent : head ≡ tail → r.1 ≡ sent
  pub ring : Sent head tail (view a).ring (view r.2).ring
  pub same_tdh : (view r.2).tdh ≡ (view a).tdh

end_LoopSent :
    (head tail : ℕ) (sent : Bool) (a : EdunicAdapter)
    → head < edunic_ring_size
    → head ≡ tail
    → LoopSent head tail sent a (head, sent, a)
end_LoopSent head tail sent a h e = record {
  ends = e;
  some_sent = λ n. absurd (n e);
  none_sent = λ z. refl;
  ring = none-Sent head tail a.tx_ring h e;
  same_tdh = refl;
}

send_loop-LoopSent :
    (rounds : ℕ) (allocated : ℕ → Bool) (head tail : ℕ) (sent : Bool) (a : EdunicAdapter)
    → head < edunic_ring_size
    → tail < edunic_ring_size
    → behind head tail ≤ rounds
    → LoopSent head tail sent a (send_loop rounds allocated head tail sent a)
unfolding send_loop
send_loop-LoopSent zero allocated head tail sent a h t d =
    end_LoopSent head tail sent a h (omega (arith, h, t, d))
send_loop-LoopSent (suc rounds) allocated head tail sent a h t d =
    elim (Bool-cases (head == tail)) [
      | inl e ↦ rw (e, send_loop) (end_LoopSent head tail sent a h ((==_iff head tail).0 e))
      | inr e ↦
          let n : head ≢ tail = λ z. false≢true (sym e ∙ (==_iff head tail).1 z) in
          let b = send_one (allocated head) head a in
          let v = view-send_one (allocated head) head a in
          let i =
            send_loop-LoopSent rounds allocated (edunic_next head) tail true b (omega arith) t
              (omega (arith, h, t, d, n)) in
          let after = (send_loop rounds allocated (edunic_next head) tail true b).2 in
          rw (e, send_loop)
            (record {
              ends = i.ends;
              some_sent = λ z. elim (ℕ_discrete (edunic_next head) tail) [
                | yes last ↦ i.none_sent last
                | no more ↦ i.some_sent more
              ];
              none_sent = λ z. absurd (n z);
              ring =
                  one-Sent head tail a.tx_ring (view after).ring h t n
                    (subst (λ w. Sent (edunic_next head) tail w.ring (view after).ring) v i.ring);
              same_tdh = i.same_tdh ∙ ap (λ w. w.tdh) v;
            })
    ]

-- What the work item leaves, where the place of TDH was `head` and that of TDT `tail`: TDH at the
-- tail, the descriptors sent, and NAPI asked for.
pub record WorkSent (head tail : ℕ) (prep : Bool) (before after : View) : Type 0 where
  pub tdh_at : after.tdh ≡ tail
  pub ring : Sent head tail before.ring after.ring
  pub asks : head ≢ tail → (if prep then after.scheduled else after.missed) ≡ true

asked-keeps :
    (prep : Bool) (v : View)
    → ((asked prep v).tdh ≡ v.tdh)
      × ((asked prep v).ring ≡ v.ring)
      × ((if prep then (asked prep v).scheduled else (asked prep v).missed) ≡ true)
asked-keeps true v = (refl, refl, refl)
asked-keeps false v = (refl, refl, refl)

after_loop-WorkSent :
    (head tail : ℕ) (prep : Bool) (a : EdunicAdapter) (end : ℕ) (sent : Bool) (b : EdunicAdapter)
    → LoopSent head tail false a (end, sent, b)
    → (view a).tdh ≡ head
    → WorkSent head tail prep (view a) (view (if sent then finish_work prep end b else b))
after_loop-WorkSent head tail prep a end true b l e =
    let k = asked-keeps prep (record (view b) { tdh = end }) in
    subst (λ v. WorkSent head tail prep (view a) v) (sym (view-finish_work prep end b))
      (record {
        tdh_at = k.0 ∙ l.ends;
        ring = subst (λ r. Sent head tail (view a).ring r) (sym k.1) l.ring;
        asks = λ n. k.2;
      })
after_loop-WorkSent head tail prep a end false b l e = record {
  tdh_at = elim (ℕ_discrete head tail) [
    | yes done ↦ l.same_tdh ∙ e ∙ done
    | no more ↦ absurd (false≢true (l.some_sent more))
  ];
  ring = l.ring;
  asks = λ n. absurd (false≢true (l.some_sent n));
}

worker_sends :
    (allocated : ℕ → Bool) (prep : Bool) (a : EdunicAdapter)
    → a.regs.tdh < edunic_ring_size
    → a.regs.tdt < edunic_ring_size
    → WorkSent a.regs.tdh a.regs.tdt prep (view a) (view (edunic_hw_tx_worker allocated prep a))
unfolding edunic_hw_tx_worker
worker_sends allocated prep a h t =
    let (end, sent, b) =
      send_loop edunic_ring_size allocated a.regs.tdh a.regs.tdt false (take_work a) in
    let l =
      send_loop-LoopSent edunic_ring_size allocated a.regs.tdh a.regs.tdt false (take_work a) h t
        (omega arith) in
    let w = after_loop-WorkSent a.regs.tdh a.regs.tdt prep (take_work a) end sent b l refl in
    record { tdh_at = w.tdh_at; ring = w.ring; asks = w.asks }

-- A work item that starts, while no other thread runs, comes to rest within 257 steps. Then TDH is
-- at TDT, the descriptors from the old TDH up to TDT are marked as sent and otherwise unchanged, no
-- other descriptor has changed, and NAPI has been asked for if there was anything to send.
pub work_sends :
    (x : XmitPc) (p : PollPc) (posted : List Skb) (allocated : ℕ → Bool) (prep : Bool)
    (a : EdunicAdapter)
    → a.work_queued ≡ true
    → a.regs.tdh < edunic_ring_size
    → a.regs.tdt < edunic_ring_size
    → let m = works 257 allocated prep (
        start_work
          (record { adapter = a; xmit = x; worker = resting; poll = p; posted = posted })) in
      (m.worker ≡ resting) × WorkSent a.regs.tdh a.regs.tdt prep (view a) (view m.adapter)
work_sends x p posted allocated prep a queued h t =
    let rests = work-alone x p posted allocated prep a queued h t in
    (
      ap (λ m. m.worker) rests,
      subst (λ v. WorkSent a.regs.tdh a.regs.tdt prep (view a) v)
          (sym (ap (λ m. view m.adapter) rests)) (worker_sends allocated prep a h t),
    )
