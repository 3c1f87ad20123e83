-- ===== src/Edunic/Rx/Harvest.antt =====
-- linux_nic_lab/driver/nic_rx.c: `edunic_clean_rx_irq` hands the frames over, oldest first.
use linux_network_lab.Base.{
  ℕ, zero, suc, ◌+◌, ◌%◌, ◌^◌, ◌≤◌, ◌<◌, min, ◌≡◌, ◌≢◌, refl, sym, ap, subst, ◌∙◌, inl, inr, Bool,
  true, List, [], ◌∷◌, ◌++◌, some, some-inj, append-nil, append_assoc, arith, length, take, drop,
  length-drop, map, ◌==◌, Bool-cases,
}
use native.Mathlib.Decide.{dec_lt, ℕ_discrete}
use linux_network_lab.Edunic.Adapter.{update_self, update_ne, EdunicAdapter}
use linux_network_lab.Edunic.Rx.{Refill, hand_over, harvest_one, harvest_loop, edunic_clean_rx_irq}
use linux_network_lab.Edunic.Rx.Ready.{Filled, Ready}
use linux_network_lab.Edunic.Rx.Refilled.{alloc-Allocated}

-- The stack is told that the checksum of a frame is verified.
abbrev pub verified : List (List ℕ) → List (List ℕ × Bool)
verified fs = map (λ f. (f, true)) fs

module _ (a : EdunicAdapter) (f : List ℕ) (fs : List (List ℕ)) (p : ℕ)
    (h : Ready a (f ∷ fs) p) where
  oldest :
      Filled
        (a.rx_ring.desc a.rx_ring.next_to_clean)
        (a.rx_ring.buf a.rx_ring.next_to_clean)
        (some f)
  oldest = h.ring.filled _ 0 (omega arith) (omega (arith, h.ring.clean_in))

  harvest_one-Ready : Ready (harvest_one a) fs p
  unfolding harvest_one hand_over
  harvest_one-Ready =
      let r = a.rx_ring in
      let g = h.ring in
      rw oldest.good (record {
        use_at = h.use_at;
        ring = record {
          clean_in = omega arith;
          fits = omega (arith, g.fits);
          rdh_at = omega (arith, g.rdh_at);
          stop_at = omega (arith, g.stop_at);
          filled = λ i k hk e.
              let ne : r.next_to_clean ≢ i = λ z. omega (arith, z, e, hk, g.clean_in, g.fits) in
              rw (update_ne r.desc _ _ i ne, update_ne r.buf _ _ i ne)
                (g.filled i (suc k) (omega (arith, hk)) (omega (arith, e)));
          waits = λ i k hd hk e. elim (ℕ_discrete r.next_to_clean i) [
            | yes z ↦ ap (λ x. x.finished) (update_self r.desc _ _ i z)
            | no ne ↦
                ap (λ x. x.finished) (update_ne r.desc _ _ i ne)
                ∙ g.waits i (suc k) (omega (arith, hd)) (omega (arith, ne, e, hk, g.clean_in))
                    (omega (arith, e))
          ];
          posted = λ i k hd hk e.
              let ne : r.next_to_clean ≢ i = λ z. omega (arith, z, e, hk, g.clean_in, g.fits) in
              rw (update_ne r.buf _ _ i ne)
                (g.posted i (suc k) (omega (arith, hd)) (omega (arith, hk)) (omega (arith, e)));
        };
      })

  harvest_one-gro : (harvest_one a).gro ≡ a.gro ++ (f, true) ∷ []
  unfolding harvest_one hand_over
  harvest_one-gro = rw (oldest.good, oldest.checked, some-inj oldest.frame) refl

-- What the loop has done when it ends: `w` frames are handed over, and all of them if the budget
-- is not used up.
record Harvested (a b : EdunicAdapter) (fs : List (List ℕ)) (p budget done total : ℕ) : Type 0 where
  w : ℕ
  few : w ≤ budget
  some_left : w ≤ length fs
  rest : w < budget → w ≡ length fs
  counted : total ≡ done + w
  ready : Ready b (drop w fs) p
  handed : b.gro ≡ a.gro ++ verified (take w fs)

nothing-Harvested :
    (a : EdunicAdapter) (fs : List (List ℕ)) (p budget done : ℕ)
    → Ready a fs p
    → (0 < budget → 0 ≡ length fs)
    → Harvested a a fs p budget done done
nothing-Harvested a fs p budget done h l = record {
  w = 0;
  few = omega arith;
  some_left = omega arith;
  rest = l;
  counted = omega arith;
  ready = h;
  handed = sym (append-nil a.gro);
}

one_more-Harvested :
    (a b : EdunicAdapter) (f : List ℕ) (fs : List (List ℕ)) (p budget done total : ℕ)
    → Ready a (f ∷ fs) p
    → Harvested (harvest_one a) b fs p budget (done + 1) total
    → Harvested a b (f ∷ fs) p (suc budget) done total
one_more-Harvested a b f fs p budget done total h r = record {
  w = suc r.w;
  few = omega (arith, r.few);
  some_left = omega (arith, r.some_left);
  rest = λ z. omega (arith, r.rest (omega (arith, z)));
  counted = omega (arith, r.counted);
  ready = r.ready;
  handed =
      r.handed
      ∙ ap (λ o. o ++ verified (take r.w fs)) (harvest_one-gro a f fs p h)
      ∙ append_assoc a.gro ((f, true) ∷ []) (verified (take r.w fs));
}

harvest_loop-Harvested :
    (budget done : ℕ) (a : EdunicAdapter) (fs : List (List ℕ)) (p : ℕ)
    → Ready a fs p
    → Harvested a (harvest_loop budget done a).1 fs p budget done (harvest_loop budget done a).0
unfolding harvest_loop
harvest_loop-Harvested zero done a fs p h =
    nothing-Harvested a fs p 0 done h (λ z. absurd (omega (arith, z)))
harvest_loop-Harvested (suc budget) done a [] p h =
    rw
      (
        h.ring.waits a.rx_ring.next_to_clean 0 (omega arith) (omega arith)
            (omega (arith, h.ring.clean_in)),
        harvest_loop,
      )
      (nothing-Harvested a [] p (suc budget) done h (λ z. omega arith))
harvest_loop-Harvested (suc budget) done a (f ∷ fs) p h =
    rw ((oldest a f fs p h).done, harvest_loop)
      (one_more-Harvested a _ f fs p budget done _ h (
        harvest_loop-Harvested budget (done + 1) (harvest_one a) fs p
          (harvest_one-Ready a f fs p h)))

-- What a poll leaves: as many frames as the budget allows are handed over, in order, and at most
-- as many buffers come back.
pub record Polled (a b : EdunicAdapter) (fs : List (List ℕ)) (p budget done : ℕ) : Type 0 where
  pub buffers : ℕ
  pub counted : done ≡ min budget (length fs)
  pub ready : Ready b (drop done fs) buffers
  pub no_more : buffers ≤ p + done
  pub handed : b.gro ≡ a.gro ++ verified (take done fs)

all_counted : {w budget n : ℕ} → w ≤ budget → w ≤ n → (w < budget → w ≡ n) → w ≡ min budget n
all_counted {w} {budget} few some_left rest = elim (dec_lt w budget) [
  | yes l ↦ omega (arith, few, some_left, rest l)
  | no l ↦ omega (arith, few, some_left, l)
]

pub clean_rx-Polled :
    (budget : ℕ) (answers : List Refill) (a : EdunicAdapter) (fs : List (List ℕ)) (p : ℕ)
    → Ready a fs p
    → let (done, b) = edunic_clean_rx_irq budget answers a in Polled a b fs p budget done
unfolding edunic_clean_rx_irq
clean_rx-Polled budget answers a fs p h =
    let r = harvest_loop-Harvested budget 0 a fs p h in
    let (done, b) = harvest_loop budget 0 a in
    let e : r.w ≡ done = omega (arith, r.counted) in
    let ready = subst (λ n. Ready b (drop n fs) p) e r.ready in
    let handed = subst (λ n. b.gro ≡ a.gro ++ verified (take n fs)) e r.handed in
    let counted = all_counted r.few r.some_left r.rest in
    elim (Bool-cases (done == 0)) [
      | inl z ↦ rw z (record {
        buffers = p;
        counted = sym e ∙ counted;
        ready = ready;
        no_more = omega arith;
        handed = handed;
      })
      | inr z ↦
          let n = length-drop done fs in
          let t =
            alloc-Allocated (done % 2 ^ 16) answers b p (drop done fs) ready
              (omega (arith, n, e, r.some_left, h.ring.fits)) in
          rw z (record {
            buffers = p + t.n;
            counted = sym e ∙ counted;
            ready = t.ready;
            no_more = omega (arith, t.few);
            handed = t.same_gro ∙ handed;
          })
    ]
