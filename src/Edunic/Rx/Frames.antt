-- ===== src/Edunic/Rx/Frames.antt =====
-- linux_nic_lab/driver/nic_rx.c: frames through the receive ring, over any sequence of arrivals and
-- polls.
use linux_network_lab.Base.{
  ℕ, zero, suc, ◌+◌, ◌≤◌, ◌<◌, ◌≡◌, refl, sym, ap, subst, ◌∙◌, inl, inr, Bool, true, false, List,
  [], ◌∷◌, ◌++◌, append-nil, append_assoc, arith, length, take, drop, length-drop, length-append,
  take-append-drop, ◌==◌, if◌then◌else◌, Bool-cases, ==_iff,
}
use mathlib.Core.Bool.{false≢true}
use native.Mathlib.Decide.{dec_lt}
use linux_network_lab.Edunic.Adapter.{EdunicStats, EdunicAdapter}
use linux_network_lab.Edunic.Rx.{
  Refill, write_frame, edunic_hw_deliver_rx_frame, edunic_clean_rx_irq,
}
use linux_network_lab.Edunic.Rx.Ready.{Ready, clamped, write_frame-Ready}
use linux_network_lab.Edunic.Rx.Harvest.{verified, clean_rx-Polled}

-- A frame comes in, or NAPI polls with a budget and with what the allocations answer.
pub data RxTurn : Type 0 where
  frame_in : List ℕ → RxTurn
  poll_rx : ℕ → List Refill → RxTurn

-- The second part lists the frames that found a buffer, as much of them as it holds.
abbrev pub rx_turn : RxTurn → EdunicAdapter × List (List ℕ) → EdunicAdapter × List (List ℕ)
rx_turn (frame_in f) (a, accepted) = (
  edunic_hw_deliver_rx_frame f a,
  if a.regs.rdh == a.regs.rdt then accepted else accepted ++ clamped f ∷ [],
)
rx_turn (poll_rx budget answers) (a, accepted) =
    ((edunic_clean_rx_irq budget answers a).1, accepted)

unfoldable pub rx_turns :
    List RxTurn → EdunicAdapter × List (List ℕ) → EdunicAdapter × List (List ℕ)
rx_turns [] s = s
rx_turns (t ∷ ts) s = rx_turns ts (rx_turn t s)

-- The frames `fs` wait, `p` buffers are empty, at most `most` places are in use, and what was
-- accepted since `gro` was handed over, or waits.
pub record Receiving (gro : List (List ℕ × Bool)) (most : ℕ) (a : EdunicAdapter)
    (accepted : List (List ℕ)) : Type 0 where
  pub fs : List (List ℕ)
  pub p : ℕ
  pub ready : Ready a fs p
  pub capacity : length fs + p ≤ most
  pub order : gro ++ verified accepted ≡ a.gro ++ verified fs

verified-append : (xs ys : List (List ℕ)) → verified (xs ++ ys) ≡ verified xs ++ verified ys
verified-append [] ys = refl
verified-append (x ∷ xs) ys = ap (λ r. (x, true) ∷ r) (verified-append xs ys)

some_buffer :
    {a : EdunicAdapter} {fs : List (List ℕ)} {p : ℕ}
    → Ready a fs p
    → (a.regs.rdh == a.regs.rdt) ≡ false
    → 0 < p
some_buffer {a} {fs} {p} h e = elim (dec_lt 0 p) [
  | yes l ↦ l
  | no l ↦
      let z : p ≡ 0 = omega (arith, l) in
      let same : a.regs.rdh ≡ a.regs.rdt = omega (arith, z, h.ring.rdh_at, h.ring.stop_at) in
      absurd (false≢true (sym e ∙ (==_iff a.regs.rdh a.regs.rdt).1 same))
]

dropped-Ready :
    {a : EdunicAdapter} {fs : List (List ℕ)} {p : ℕ} (stats : EdunicStats)
    → Ready a fs p
    → Ready (record a { stats = stats }) fs p
dropped-Ready stats h = record { ring = h.ring; use_at = h.use_at }

module _ {gro : List (List ℕ × Bool)} {most : ℕ} (a : EdunicAdapter)
    (accepted : List (List ℕ)) where
  accepted-Receiving :
      (f : List ℕ) (fs : List (List ℕ)) (p : ℕ)
      → Ready a fs p
      → length fs + p ≤ most
      → gro ++ verified accepted ≡ a.gro ++ verified fs
      → 0 < p
      → Receiving gro most (write_frame f a) (accepted ++ clamped f ∷ [])
  unfolding write_frame
  accepted-Receiving f fs zero h c o l = absurd (omega (arith, l))
  accepted-Receiving f fs (suc p) h c o l = record {
    fs = fs ++ clamped f ∷ [];
    p = p;
    ready = write_frame-Ready a fs p f h;
    capacity = omega (arith, c, length-append fs (clamped f ∷ []));
    order =
        rw (verified-append accepted (clamped f ∷ []), verified-append fs (clamped f ∷ []))
          (sym (append_assoc gro (verified accepted) _)
            ∙ ap (λ r. r ++ (clamped f, true) ∷ []) o
            ∙ append_assoc a.gro (verified fs) _);
  }

  frame_in-Receiving :
      (f : List ℕ)
      → Receiving gro most a accepted
      → let (b, accepted') = rx_turn (frame_in f) (a, accepted) in Receiving gro most b accepted'
  unfolding edunic_hw_deliver_rx_frame
  frame_in-Receiving f r = elim (Bool-cases (a.regs.rdh == a.regs.rdt)) [
    | inl e ↦ rw e (record {
      fs = r.fs;
      p = r.p;
      ready = dropped-Ready _ r.ready;
      capacity = r.capacity;
      order = r.order;
    })
    | inr e ↦
        rw e (accepted-Receiving f r.fs r.p r.ready r.capacity r.order (some_buffer r.ready e))
  ]

  poll_rx-Receiving :
      (budget : ℕ) (answers : List Refill)
      → Receiving gro most a accepted
      → Receiving gro most (edunic_clean_rx_irq budget answers a).1 accepted
  poll_rx-Receiving budget answers r =
      let (done, b) = edunic_clean_rx_irq budget answers a in
      let t = clean_rx-Polled budget answers a r.fs r.p r.ready in
      record {
        fs = drop done r.fs;
        p = t.buffers;
        ready = t.ready;
        capacity = omega (arith, t.no_more, t.counted, r.capacity, length-drop done r.fs);
        order =
            r.order
            ∙ rw t.handed (
                ap (λ o. a.gro ++ o)
                  (ap verified (sym (take-append-drop done r.fs))
                    ∙ verified-append (take done r.fs) (drop done r.fs))
                ∙ sym (append_assoc a.gro (verified (take done r.fs)) (verified (drop done r.fs))));
      }

turn-Receiving :
    {gro : List (List ℕ × Bool)} {most : ℕ} (t : RxTurn) (a : EdunicAdapter)
    (accepted : List (List ℕ))
    → Receiving gro most a accepted
    → let (b, accepted') = rx_turn t (a, accepted) in Receiving gro most b accepted'
turn-Receiving (frame_in f) a accepted r = frame_in-Receiving a accepted f r
turn-Receiving (poll_rx budget answers) a accepted r = poll_rx-Receiving a accepted budget answers r

turns-Receiving :
    {gro : List (List ℕ × Bool)} {most : ℕ} (ts : List RxTurn) (a : EdunicAdapter)
    (accepted : List (List ℕ))
    → Receiving gro most a accepted
    → let (b, accepted') = rx_turns ts (a, accepted) in Receiving gro most b accepted'
unfolding rx_turns
turns-Receiving [] a accepted r = r
turns-Receiving (t ∷ ts) a accepted r =
    let (b, accepted') = rx_turn t (a, accepted) in
    turns-Receiving ts b accepted' (turn-Receiving t a accepted r)

-- From a ring with `p` empty buffers on, whatever frames come in, however NAPI polls, and whatever
-- the allocations answer, the frames handed to the stack, with their checksum verified, and then
-- those that wait in the ring, are the frames that found a buffer, in order and each cut to the
-- buffer; and frames and buffers in the ring never take more than `p` places.
pub rx_turns_lem :
    (ts : List RxTurn) (a : EdunicAdapter) (p : ℕ)
    → Ready a [] p
    → let (b, accepted) = rx_turns ts (a, []) in
      (fs : List (List ℕ)) × (buffers : ℕ) × Ready b fs buffers
      × (a.gro ++ verified accepted ≡ b.gro ++ verified fs)
      × (length fs + buffers ≤ p)
rx_turns_lem ts a p h =
    let r : Receiving a.gro p a [] = record {
      fs = [];
      p = p;
      ready = h;
      capacity = omega arith;
      order = refl;
    } in
    let t = turns-Receiving ts a [] r in (t.fs, t.p, t.ready, t.order, t.capacity)

-- With no place in use every frame is dropped.
deaf_turn :
    (t : RxTurn) (a : EdunicAdapter) {gro : List (List ℕ × Bool)}
    → Receiving gro 0 a []
    → (rx_turn t (a, [])).1 ≡ []
deaf_turn (poll_rx budget answers) a r = refl
deaf_turn (frame_in f) a r =
    let h = r.ready.ring in
    let e : (a.regs.rdh == a.regs.rdt) ≡ true =
      (==_iff _ _).1 (omega (arith, r.capacity, h.rdh_at, h.stop_at)) in
    rw e refl

deaf_turns :
    (ts : List RxTurn) (a : EdunicAdapter) {gro : List (List ℕ × Bool)}
    → Receiving gro 0 a []
    → (rx_turns ts (a, [])).1 ≡ []
unfolding rx_turns
deaf_turns [] a r = refl
deaf_turns (t ∷ ts) a {gro} r =
    let (b, accepted) = rx_turn t (a, []) in
    let e : accepted ≡ [] = deaf_turn t a r in
    ap (λ o. (rx_turns ts (b, o)).1) e
    ∙ deaf_turns ts b (subst (λ o. Receiving gro 0 b o) e (turn-Receiving t a [] r))

none_waits : (fs : List (List ℕ)) → length fs ≡ 0 → fs ≡ []
none_waits [] e = refl
none_waits (f ∷ fs) e = absurd (omega (arith, e))

-- Once no buffer is posted and no frame waits, no frame is received any more: whatever comes in, and
-- however much memory the later polls would find, each frame is dropped, and nothing is handed to
-- the stack.
pub deaf_lem :
    (ts : List RxTurn) (a : EdunicAdapter)
    → Ready a [] 0
    → let (b, accepted) = rx_turns ts (a, []) in
      (accepted ≡ []) × (b.gro ≡ a.gro) × (b.regs.rdh ≡ b.regs.rdt)
deaf_lem ts a h =
    let (b, accepted) = rx_turns ts (a, []) in
    let (fs, buffers, ready, order, capacity) = rx_turns_lem ts a 0 h in
    let heard : accepted ≡ [] =
      deaf_turns ts a
        (record { fs = []; p = 0; ready = h; capacity = omega arith; order = refl }) in
    let waiting : fs ≡ [] = none_waits fs (omega (arith, capacity)) in
    (
      heard,
      sym (append-nil b.gro)
          ∙ ap (λ o. b.gro ++ verified o) (sym waiting)
          ∙ sym order
          ∙ ap (λ o. a.gro ++ verified o) heard
          ∙ append-nil a.gro,
      omega (arith, capacity, ready.ring.rdh_at, ready.ring.stop_at),
    )
