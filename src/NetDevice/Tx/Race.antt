-- ===== src/NetDevice/Tx/Race.antt =====
-- net_device/simple_netdev.c: an interrupt between the two steps of `my_start_xmit` on a full ring.
use linux_network_lab.Base.{
  ℕ, zero, suc, ◌≤◌, ◌≡◌, refl, subst, inl, inr, Bool-cases, true, false, List, [], ◌∷◌, arith,
  length, drop,
}
use linux_network_lab.NetDevice.Device.{Priv, Device}
use linux_network_lab.NetDevice.Tx.{tx_ring_full, stop_queue, tx_clean}
use linux_network_lab.NetDevice.Tx.Queue.{Holds, full_iff}
use linux_network_lab.NetDevice.Tx.Clean.{completed, tx_clean_lem}

drop_all : (n : ℕ) (q : List ℕ) → length q ≤ n → drop n q ≡ []
drop_all zero [] h = refl
drop_all zero (x ∷ q) h = absurd (omega (arith, h))
drop_all (suc n) [] h = refl
drop_all (suc n) (x ∷ q) h = drop_all n q (omega (arith, h))

empty_not_full : {p : Priv} → Holds p [] → tx_ring_full p ≡ false
empty_not_full {p} h = elim (Bool-cases (tx_ring_full p)) [
  | inl full ↦ absurd (omega (arith, (full_iff h).0 full))
  | inr room ↦ room
]

-- If the handler cleans a full ring, all of it done, after `my_start_xmit` has found it full and
-- before it stops the queue, then the queue is stopped with nothing left in the ring whose
-- completion could wake it, and the ring has room.
pub tx_clean_race :
    (d : Device) (q : List ℕ)
    → Holds d.priv q
    → tx_ring_full d.priv ≡ true
    → completed d.priv.tx_ring d.priv.tx_clean q ≡ 63
    → let d' = stop_queue (tx_clean d) in
      (d'.queue_stopped ≡ true) × Holds d'.priv [] × (tx_ring_full d'.priv ≡ false)
tx_clean_race d q h full all =
    let n = completed d.priv.tx_ring d.priv.tx_clean q in
    let c = tx_clean_lem d q h in
    let none_left : drop n q ≡ [] = drop_all n q (omega (arith, (full_iff h).0 full, all)) in
    let empty = subst (λ r. Holds (tx_clean d).priv r) none_left c.0 in
    (refl, empty, empty_not_full empty)
