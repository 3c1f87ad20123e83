-- ===== src/NetDevice/Tx/Clean.antt =====
-- net_device/simple_netdev.c: `my_tx_clean` frees what the NIC is done with.
use linux_network_lab.Base.{
  ℕ, zero, suc, ◌+◌, ◌%◌, ◌≤◌, ◌<◌, ◌≡◌, ◌≢◌, refl, sym, ap, ◌∙◌, inl, inr, Bool, true, false, not,
  ◌&&◌, List, [], ◌∷◌, ◌++◌, append-nil, append_assoc, arith, length, take, drop, set, ◌==◌,
  if◌then◌else◌, Bool-cases, ==_iff,
}
use linux_network_lab.NetDevice.Device.{tx_ring_size, TxDesc, Device, tx_desc}
use linux_network_lab.NetDevice.Tx.{
  next_tx, tx_ring_full, may_clean, clean_one, clean_loop, wake, tx_clean,
}
use linux_network_lab.NetDevice.Tx.Queue.{Holds, clean_one-Holds, oldest, in_use, tx_desc-set_ne}

-- The NIC has given the descriptor back, done.
abbrev pub is_done : TxDesc → Bool
is_done t = not t.owned_by_hw && t.finished

-- How many of the skbs of a queue, from its oldest on, are done.
unfoldable pub completed : List TxDesc → ℕ → List ℕ → ℕ
completed ring i [] = 0
completed ring i (x ∷ q) =
    let rest = completed ring (next_tx i) q in if is_done (tx_desc ring i) then suc rest else 0

completed-set :
    (ring : List TxDesc) (j : ℕ) (v : TxDesc) (i : ℕ) (q : List ℕ)
    → i < tx_ring_size
    → ((k : ℕ) → k < length q → j ≢ (i + k) % tx_ring_size)
    → completed (set ring j v) i q ≡ completed ring i q
unfolding completed
completed-set ring j v i [] hi away = refl
completed-set ring j v i (x ∷ q) hi away = rw (
  tx_desc-set_ne ring j i v (λ e. away 0 (omega arith) (omega (arith, e, hi))),
  completed-set ring j v (next_tx i) q (omega arith)
      (λ k hk e. away (suc k) (omega (arith, hk)) (omega (arith, e, hi))),
)

-- What the loop has done when it stops: `n` skbs are gone, in order, and nothing else has changed.
pub record Cleaned (d d' : Device) (q : List ℕ) (n : ℕ) : Type 0 where
  pub left : Holds d'.priv (drop n q)
  pub freed : d'.skbs_freed ≡ d.skbs_freed ++ take n q
  pub same_head : d'.priv.tx_head ≡ d.priv.tx_head
  pub same_regs : d'.regs ≡ d.regs
  pub same_stop : d'.queue_stopped ≡ d.queue_stopped

nothing_Cleaned : {d : Device} {q : List ℕ} (n : ℕ) → Holds d.priv q → n ≡ 0 → Cleaned d d q n
nothing_Cleaned {d} {q} n h e = rw e (record {
  left = h;
  freed = sym (append-nil d.skbs_freed);
  same_head = refl;
  same_regs = refl;
  same_stop = refl;
})

may_clean_busy :
    (d : Device) (x : ℕ) (q : List ℕ)
    → Holds d.priv (x ∷ q)
    → may_clean d.priv ≡ is_done (tx_desc d.priv.tx_ring d.priv.tx_clean)
unfolding may_clean
may_clean_busy d x q h = rw (in_use d x q h)

may_clean_empty : (d : Device) → Holds d.priv [] → may_clean d.priv ≡ false
unfolding may_clean
may_clean_empty d h =
    let e : (d.priv.tx_clean == d.priv.tx_head) ≡ true =
      (==_iff _ _).1 (omega (arith, h.head_at, h.clean_in)) in
    rw e

clean_step-Cleaned :
    (d d' : Device) (x : ℕ) (q : List ℕ) (n : ℕ)
    → Holds d.priv (x ∷ q)
    → Cleaned (clean_one d) d' q n
    → Cleaned d d' (x ∷ q) (suc n)
unfolding clean_one
clean_step-Cleaned d d' x q n h c = record {
  left = c.left;
  freed =
      c.freed
      ∙ ap (λ o. (d.skbs_freed ++ o) ++ take n q) (oldest d x q h)
      ∙ append_assoc d.skbs_freed (x ∷ []) (take n q);
  same_head = c.same_head;
  same_regs = c.same_regs;
  same_stop = c.same_stop;
}

completed-clean_one :
    (d : Device) (x : ℕ) (q : List ℕ)
    → Holds d.priv (x ∷ q)
    → completed (clean_one d).priv.tx_ring (clean_one d).priv.tx_clean q
      ≡ completed d.priv.tx_ring (next_tx d.priv.tx_clean) q
unfolding clean_one
completed-clean_one d x q h =
    completed-set d.priv.tx_ring d.priv.tx_clean _ (next_tx d.priv.tx_clean) q (omega arith)
      (λ k hk. omega (arith, hk, h.room, h.clean_in))

-- The loop frees the longest done part of the queue, if it has a round for each skb.
clean_loop-Cleaned :
    (rounds : ℕ) (d : Device) (q : List ℕ)
    → length q ≤ rounds
    → Holds d.priv q
    → Cleaned d (clean_loop rounds d) q (completed d.priv.tx_ring d.priv.tx_clean q)
unfolding clean_loop completed
clean_loop-Cleaned zero d [] l h = nothing_Cleaned 0 h refl
clean_loop-Cleaned zero d (x ∷ q) l h = absurd (omega arith)
clean_loop-Cleaned (suc rounds) d [] l h =
    rw (may_clean_empty d h, clean_loop) (nothing_Cleaned 0 h refl)
clean_loop-Cleaned (suc rounds) d (x ∷ q) l h =
    elim (Bool-cases (is_done (tx_desc d.priv.tx_ring d.priv.tx_clean))) [
      | inl done ↦
          rw (may_clean_busy d x q h ∙ done, done, clean_loop)
            (clean_step-Cleaned d _ x q _ h (
              rw (completed-clean_one d x q h) at (
                clean_loop-Cleaned rounds (clean_one d) q (omega arith) (clean_one-Holds d x q h))))
      | inr waits ↦
          rw (may_clean_busy d x q h ∙ waits, waits, clean_loop) (nothing_Cleaned 0 h refl)
    ]

wake_keeps :
    (d : Device)
    → ((wake d).priv ≡ d.priv) × ((wake d).skbs_freed ≡ d.skbs_freed) × ((wake d).regs ≡ d.regs)
unfolding wake
wake_keeps d = ground arith

wake_stopped : (d : Device) → (wake d).queue_stopped ≡ (d.queue_stopped && tx_ring_full d.priv)
unfolding wake
wake_stopped d = ground arith

-- `my_tx_clean` frees the skbs that are done, from the oldest on up to the first that is not, in
-- order, and leaves the rest queued. The transmit queue stays stopped only if it was and the ring
-- is still full, and the head and the registers stay.
pub tx_clean_lem :
    (d : Device) (q : List ℕ)
    → Holds d.priv q
    → let d' = tx_clean d in
      let n = completed d.priv.tx_ring d.priv.tx_clean q in
      Holds d'.priv (drop n q)
      × (d'.skbs_freed ≡ d.skbs_freed ++ take n q)
      × (d'.queue_stopped ≡ (d.queue_stopped && tx_ring_full d'.priv))
      × (d'.priv.tx_head ≡ d.priv.tx_head)
      × (d'.regs ≡ d.regs)
unfolding tx_clean
tx_clean_lem d q h =
    let c = clean_loop-Cleaned tx_ring_size d q (omega (arith, h.room)) h in
    let w = wake_keeps (clean_loop tx_ring_size d) in
    (
      rw w.0 c.left,
      w.1 ∙ c.freed,
      wake_stopped (clean_loop tx_ring_size d)
          ∙ ap (λ b. b && tx_ring_full (clean_loop tx_ring_size d).priv) c.same_stop
          ∙ ap (λ p. d.queue_stopped && tx_ring_full p) (sym w.0),
      ap (λ p. p.tx_head) w.0 ∙ c.same_head,
      w.2 ∙ c.same_regs,
    )
