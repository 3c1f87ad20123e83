-- ===== src/Edunic/Rx/Refilled.antt =====
-- linux_nic_lab/driver/nic_rx.c: `edunic_alloc_rx_buffers` posts buffers until one is refused.
use linux_network_lab.Base.{
  ℕ, zero, suc, ◌+◌, ◌≤◌, ◌<◌, ◌≡◌, ◌≢◌, refl, sym, ap, subst, ◌∙◌, inl, inr, List, [], ◌∷◌, arith,
  length, ◌==◌, Bool-cases, Option-cases, ==_iff,
}
use native.Mathlib.Decide.{dec_lt, ℕ_discrete}
use linux_network_lab.Edunic.Adapter.{
  edunic_ring_size, update_self, update_ne, EdunicRxRing, EdunicAdapter,
}
use linux_network_lab.Edunic.Rx.{
  Refill, Posting, empty_skb, post_buffer, free_unmapped, post_loop, ring_doorbell,
  edunic_alloc_rx_buffers,
}
use linux_network_lab.Edunic.Rx.Ready.{ReadyAt, Ready}

module _ (s : Posting) {rdh p : ℕ} {fs : List (List ℕ)} (id address : ℕ)
    (h : ReadyAt s.adapter.rx_ring rdh s.place fs p)
    (room : suc (length fs + p) < edunic_ring_size) where
  pub post_buffer-ReadyAt :
      ReadyAt
        (post_buffer id address s).adapter.rx_ring
        rdh
        (post_buffer id address s).place
        fs
        (suc p)
  unfolding post_buffer
  post_buffer-ReadyAt =
      let r = s.adapter.rx_ring in
      record {
        clean_in = h.clean_in;
        fits = omega (arith, room);
        rdh_at = h.rdh_at;
        stop_at = omega (arith, h.stop_at);
        filled = λ i k hk e.
            let ne : s.place ≢ i = λ z. omega (arith, z, e, hk, h.stop_at, room) in
            rw (update_ne r.desc s.place _ i ne, update_ne r.buf s.place _ i ne)
              (h.filled i k hk e);
        waits = λ i k hd hk e. elim (ℕ_discrete s.place i) [
          | yes z ↦ ap (λ x. x.finished) (update_self r.desc s.place _ i z)
          | no ne ↦ ap (λ x. x.finished) (update_ne r.desc s.place _ i ne) ∙ h.waits i k hd hk e
        ];
        posted = λ i k hd hk e. elim (dec_lt k (length fs + p)) [
          | yes old ↦
              rw (update_ne r.buf s.place _ i (λ z. omega (arith, z, e, old, h.stop_at, room)))
                (h.posted i k hd old e)
          | no new ↦
              rw (update_self r.buf s.place _ i (omega (arith, e, hk, new, h.stop_at)))
                (record { skb = empty_skb id; holds = refl; room = refl })
        ];
      }

-- What the loop has done when it ends: `n` buffers are posted.
record Refilled (s s' : Posting) (rdh : ℕ) (fs : List (List ℕ)) (p count : ℕ) : Type 0 where
  n : ℕ
  few : n ≤ count
  counted : s'.posted ≡ s.posted + n
  ready : ReadyAt s'.adapter.rx_ring rdh s'.place fs (p + n)
  idle : n ≡ 0 → s'.place ≡ s.place
  same_regs : s'.adapter.regs ≡ s.adapter.regs
  same_use : s'.adapter.rx_ring.next_to_use ≡ s.adapter.rx_ring.next_to_use
  same_gro : s'.adapter.gro ≡ s.adapter.gro

nothing-Refilled :
    {rdh p : ℕ} {fs : List (List ℕ)} (s s' : Posting) (count : ℕ)
    → ReadyAt s.adapter.rx_ring rdh s.place fs p
    → s'.adapter.rx_ring ≡ s.adapter.rx_ring
    → s'.place ≡ s.place
    → s'.posted ≡ s.posted
    → s'.adapter.regs ≡ s.adapter.regs
    → s'.adapter.gro ≡ s.adapter.gro
    → Refilled s s' rdh fs p count
nothing-Refilled {p} s s' count h e place posted regs gro =
    let zero_more : p + 0 ≡ p = omega arith in
    record {
      n = 0;
      few = omega arith;
      counted = omega (arith, posted);
      ready = rw (e, place, zero_more) h;
      idle = λ z. place;
      same_regs = regs;
      same_use = ap (λ r. r.next_to_use) e;
      same_gro = gro;
    }

one_more-Refilled :
    {rdh p : ℕ} {fs : List (List ℕ)} (s s' : Posting) (count id address : ℕ)
    → Refilled (post_buffer id address s) s' rdh fs (suc p) count
    → Refilled s s' rdh fs p (suc count)
unfolding post_buffer
one_more-Refilled {p} s s' count id address r =
    let e : p + suc r.n ≡ suc p + r.n = omega arith in
    record {
      n = suc r.n;
      few = omega (arith, r.few);
      counted = omega (arith, r.counted);
      ready = rw e r.ready;
      idle = λ z. absurd (omega (arith, z));
      same_regs = r.same_regs;
      same_use = r.same_use;
      same_gro = r.same_gro;
    }

post_loop-Refilled :
    (count : ℕ) (answers : List Refill) (s : Posting) (rdh p : ℕ) (fs : List (List ℕ))
    → ReadyAt s.adapter.rx_ring rdh s.place fs p
    → length fs + p + count < edunic_ring_size
    → Refilled s (post_loop count answers s) rdh fs p count
unfolding post_loop
post_loop-Refilled zero answers s rdh p fs h l = nothing-Refilled s s 0 h refl refl refl refl refl
post_loop-Refilled (suc count) [] s rdh p fs h l =
    nothing-Refilled s s (suc count) h refl refl refl refl refl
post_loop-Refilled (suc count) (r ∷ answers) s rdh p fs h l = elim (Option-cases r.fresh) [
  | inl e ↦ rw (e, post_loop) (nothing-Refilled s s (suc count) h refl refl refl refl refl)
  | inr (id, e) ↦ elim (Bool-cases r.mapping.mapped) [
    | inr failed ↦
        rw (e, failed, post_loop)
          (nothing-Refilled s (free_unmapped id s) (suc count) h refl refl refl refl refl)
    | inl ok ↦
        rw (e, ok, post_loop)
          (one_more-Refilled s _ count id r.mapping.address (
            post_loop-Refilled count answers (post_buffer id r.mapping.address s) rdh (suc p) fs
              (post_buffer-ReadyAt s id r.mapping.address h (omega (arith, l))) (omega (arith, l))))
  ]
]

at_use :
    (a : EdunicAdapter) (p : ℕ) (fs : List (List ℕ))
    → Ready a fs p
    → ReadyAt a.rx_ring a.regs.rdh a.rx_ring.next_to_use fs p
at_use a p fs h = subst (λ u. ReadyAt a.rx_ring a.regs.rdh u fs p) (sym h.use_at) h.ring

with_use :
    {r : EdunicRxRing} {rdh stop p : ℕ} {fs : List (List ℕ)} (u : ℕ)
    → ReadyAt r rdh stop fs p
    → ReadyAt (record r { next_to_use = u }) rdh stop fs p
with_use u h = record {
  clean_in = h.clean_in;
  fits = h.fits;
  rdh_at = h.rdh_at;
  stop_at = h.stop_at;
  filled = h.filled;
  waits = h.waits;
  posted = h.posted;
}

to_ready :
    {p : ℕ} {fs : List (List ℕ)} (b : EdunicAdapter) (rdh stop : ℕ)
    → ReadyAt b.rx_ring rdh stop fs p
    → b.regs.rdh ≡ rdh
    → b.regs.rdt ≡ stop
    → b.rx_ring.next_to_use ≡ stop
    → Ready b fs p
to_ready {p} {fs} b rdh stop h head tail used = record {
  ring =
      subst (λ i. ReadyAt b.rx_ring i b.regs.rdt fs p) (sym head)
        (subst (λ j. ReadyAt b.rx_ring rdh j fs p) (sym tail) h);
  use_at = used ∙ sym tail;
}

-- `n` buffers are posted, and nothing is handed over.
pub record Allocated (a b : EdunicAdapter) (fs : List (List ℕ)) (p count : ℕ) : Type 0 where
  pub n : ℕ
  pub few : n ≤ count
  pub ready : Ready b fs (p + n)
  pub same_gro : b.gro ≡ a.gro

pub alloc-Allocated :
    (count : ℕ) (answers : List Refill) (a : EdunicAdapter) (p : ℕ) (fs : List (List ℕ))
    → Ready a fs p
    → length fs + p + count < edunic_ring_size
    → Allocated a (edunic_alloc_rx_buffers count answers a).1 fs p count
unfolding edunic_alloc_rx_buffers
alloc-Allocated count answers a p fs h l =
    let s : Posting = record { adapter = a; place = a.rx_ring.next_to_use; posted = 0 } in
    let t = post_loop count answers s in
    let r = post_loop-Refilled count answers s a.regs.rdh p fs (at_use a p fs h) l in
    elim (Bool-cases (t.posted == 0)) [
      | inl e ↦
          let z : r.n ≡ 0 = omega (arith, r.counted, (==_iff t.posted 0).0 e) in
          rw e (record {
            n = r.n;
            few = r.few;
            ready =
                to_ready t.adapter a.regs.rdh t.place r.ready (ap (λ g. g.rdh) r.same_regs)
                  (ap (λ g. g.rdt) r.same_regs ∙ sym h.use_at ∙ sym (r.idle z))
                  (r.same_use ∙ sym (r.idle z));
            same_gro = r.same_gro;
          })
      | inr e ↦ rw e (record {
        n = r.n;
        few = r.few;
        ready =
            to_ready (ring_doorbell t) a.regs.rdh t.place (with_use t.place r.ready)
              (ap (λ g. g.rdh) r.same_regs) refl refl;
        same_gro = r.same_gro;
      })
    ]
