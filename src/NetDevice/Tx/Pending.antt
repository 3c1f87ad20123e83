-- ===== src/NetDevice/Tx/Pending.antt =====
-- net_device/simple_netdev.c: `my_free_pending_tx` frees exactly the skbs that the ring holds.
use mathlib.Core.List.{Perm, perm_append_comm}
use mathlib.Core.List.Perm
use linux_network_lab.Base.{
  ℕ, zero, suc, ◌<◌, ◌≡◌, refl, sym, List, [], ◌∷◌, ◌++◌, append_assoc, none, arith, length, set,
}
use linux_network_lab.NetDevice.Device.{TxDesc, Device, tx_desc, zero_tx_desc}
use linux_network_lab.NetDevice.Tx.{skbs, clean_one, pending_skbs}
use linux_network_lab.NetDevice.Tx.Queue.{Holds, clean_one-Holds, oldest}

none_pending :
    (ring : List TxDesc)
    → ((i : ℕ) → i < length ring → (tx_desc ring i).skb ≡ none)
    → pending_skbs ring ≡ []
unfolding pending_skbs
none_pending [] h = refl
none_pending (t ∷ ring) h =
    rw (h 0 (omega arith), none_pending ring (λ i l. h (suc i) (omega (arith, l))))

-- What one descriptor gives up is what the ring has lost.
pending-set :
    (ring : List TxDesc) (i : ℕ) (v : TxDesc)
    → v.skb ≡ none
    → Perm (pending_skbs ring) (skbs (tx_desc ring i).skb ++ pending_skbs (set ring i v))
unfolding pending_skbs
pending-set [] i v e = Perm.refl _
pending-set (t ∷ ring) zero v e = rw e (Perm.refl _)
pending-set (t ∷ ring) (suc i) v e =
    let a = skbs t.skb in
    let b = skbs (tx_desc ring i).skb in
    let rest = pending_skbs (set ring i v) in
    Perm.trans (Perm.append_left a (pending-set ring i v e)) (
      rw (sym (append_assoc a b rest), sym (append_assoc b a rest))
        (Perm.append_right rest (perm_append_comm a b)))

pub Holds-pending :
    (q : List ℕ) (d : Device) → Holds d.priv q → Perm (pending_skbs d.priv.tx_ring) q
unfolding clean_one
Holds-pending [] d h =
    rw (none_pending d.priv.tx_ring (λ i l. h.vacant i (omega (arith, l, h.whole)) (omega arith)))
      (Perm.refl _)
Holds-pending (x ∷ q) d h =
    let once = pending-set d.priv.tx_ring d.priv.tx_clean zero_tx_desc refl in
    Perm.trans (rw (oldest d x q h) at once)
      (Perm.cons x (Holds-pending q (clean_one d) (clean_one-Holds d x q h)))
