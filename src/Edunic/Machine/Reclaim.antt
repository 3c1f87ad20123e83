-- ===== src/Edunic/Machine/Reclaim.antt =====
-- linux_nic_lab/driver/nic_tx.c: `edunic_clean_tx_irq` reclaims all that the chip has sent.
use linux_network_lab.Base.{
  ℕ, zero, suc, ◌+◌, ◌≤◌, ◌≡◌, refl, sym, ap, ◌∙◌, Bool, true, false, List, [], ◌∷◌, ◌++◌,
  append-nil, append_assoc, arith, take, drop, if◌then◌else◌,
}
use linux_network_lab.Edunic.Adapter.{edunic_ring_size, Skb, EdunicTxRing, EdunicAdapter}
use linux_network_lab.Edunic.Tx.{
  TxCleaning, reclaim_one, reclaim, reclaim_loop, count_sent, reclaim_done,
}
use linux_network_lab.Edunic.Machine.View.{view}
use linux_network_lab.Edunic.Machine.Flight.{
  Flight, may_reclaim-none, may_reclaim-some, oldest, reclaim_one-Flight,
}

-- What the loop changes: the ring, and the skbs freed.
record Reclaimed (s s' : TxCleaning) (h : ℕ) (q : List Skb) (d : ℕ) : Type 0 where
  ring : EdunicTxRing
  same : s'.adapter ≡ record s.adapter { tx_ring = ring; consumed = s.adapter.consumed ++ take d q }
  flight : Flight ring h (drop d q) 0
  counted : s'.packets ≡ s.packets + d

nothing-Reclaimed :
    {s : TxCleaning} {h : ℕ} {q : List Skb} → Flight s.adapter.tx_ring h q 0 → Reclaimed s s h q 0
nothing-Reclaimed {s} f = record {
  ring = s.adapter.tx_ring;
  same = λ i. record s.adapter { consumed = sym (append-nil s.adapter.consumed) i };
  flight = f;
  counted = omega arith;
}

step-Reclaimed :
    {s s' : TxCleaning} {h d : ℕ} {x : Skb} {q : List Skb}
    → Flight s.adapter.tx_ring h (x ∷ q) (suc d)
    → Reclaimed (reclaim s) s' h q d
    → Reclaimed s s' h (x ∷ q) (suc d)
unfolding reclaim_one
step-Reclaimed {s} {d} {x} {q} f r = record {
  ring = r.ring;
  same = r.same ∙ λ i. record s.adapter {
    tx_ring = r.ring;
    consumed =
        (ap (λ o. (s.adapter.consumed ++ o) ++ take d q) (oldest s.adapter f)
            ∙ append_assoc s.adapter.consumed (x ∷ []) (take d q))
          i;
  };
  flight = r.flight;
  counted = omega (arith, r.counted);
}

reclaim_loop-Reclaimed :
    (rounds d : ℕ) (q : List Skb) (h : ℕ) (s : TxCleaning)
    → d ≤ rounds
    → Flight s.adapter.tx_ring h q d
    → Reclaimed s (reclaim_loop rounds s) h q d
unfolding reclaim_loop
reclaim_loop-Reclaimed zero zero q h s l f = nothing-Reclaimed f
reclaim_loop-Reclaimed zero (suc d) q h s l f = absurd (omega (arith, l))
reclaim_loop-Reclaimed (suc rounds) zero q h s l f =
    rw (may_reclaim-none f, reclaim_loop) (nothing-Reclaimed f)
reclaim_loop-Reclaimed (suc rounds) (suc d) [] h s l f = absurd (omega (arith, f.sent))
reclaim_loop-Reclaimed (suc rounds) (suc d) (x ∷ q) h s l f =
    rw (may_reclaim-some f, reclaim_loop)
      (step-Reclaimed f (
        reclaim_loop-Reclaimed rounds d q h (reclaim s) (omega (arith, l))
          (reclaim_one-Flight s.adapter f)))

view-counted :
    (c : Bool) (s : TxCleaning) → view (if c then s.adapter else count_sent s) ≡ view s.adapter
view-counted true s = refl
view-counted false s = refl

-- All that was sent is freed, in order, and the rest of what the transmit path sees stays.
pub record AllReclaimed (a b : EdunicAdapter) (h : ℕ) (q : List Skb) (d : ℕ) : Type 0 where
  pub ring : EdunicTxRing
  pub same : view b ≡ record (view a) { ring = ring; consumed = a.consumed ++ take d q }
  pub flight : Flight ring h (drop d q) 0

pub reclaim_done_lem :
    (a : EdunicAdapter) (h d : ℕ) (q : List Skb)
    → Flight a.tx_ring h q d
    → ((reclaim_done a).0 ≡ d) × AllReclaimed a (reclaim_done a).1 h q d
unfolding reclaim_done
reclaim_done_lem a h d q f =
    let start : TxCleaning = record { adapter = a; packets = 0; bytes = 0 } in
    let r = reclaim_loop-Reclaimed edunic_ring_size d q h start (omega (arith, f.sent, f.fits)) f in
    (
      omega (arith, r.counted),
      record { ring = r.ring; same = view-counted _ _ ∙ ap view r.same; flight = r.flight },
    )
