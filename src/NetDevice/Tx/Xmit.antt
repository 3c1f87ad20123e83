-- ===== src/NetDevice/Tx/Xmit.antt =====
-- net_device/simple_netdev.c: `my_start_xmit` against a bounded queue.
use linux_network_lab.Base.{
  ℕ, ◌≡◌, refl, sym, ◌∙◌, inl, inr, Bool, false, ◌||◌, List, [], ◌∷◌, ◌++◌, append-nil, arith,
  length, ◌==◌, if◌then◌else◌, Bool-cases, ==_iff,
}
use linux_network_lab.NetDevice.Device.{Priv, Device}
use linux_network_lab.NetDevice.Tx.{
  TxResult, tx_ok, tx_busy, DmaAnswer, tx_ring_full, queue_skb, drop_skb, start_xmit,
}
use linux_network_lab.NetDevice.Tx.Queue.{
  Holds, full_iff, not_full, queue_skb-Holds, drop_skb-Holds,
}

-- What a bounded queue of 63 skbs does with one more: the result, the queue afterwards, and what is
-- freed.
abbrev pub enqueue : List ℕ → ℕ → Bool → TxResult × List ℕ × List ℕ
enqueue q skb mapped =
    if length q == 63
    then (tx_busy, q, [])
    else if mapped
    then (tx_ok, q ++ skb ∷ [], [])
    else (tx_ok, q, skb ∷ [])

full_test : {p : Priv} {q : List ℕ} → Holds p q → tx_ring_full p ≡ (length q == 63)
full_test {p} {q} h = elim (Bool-cases (tx_ring_full p)) [
  | inl e ↦ e ∙ sym ((==_iff (length q) 63).1 ((full_iff h).0 e))
  | inr e ↦ let f : (length q == 63) ≡ false = ground (arith, not_full h e) in e ∙ sym f
]

-- `my_start_xmit` does what the queue does: a full ring refuses the skb and stops the queue, an skb
-- that cannot be mapped is freed, and any other stands last in the ring. The NIC's tail register
-- follows the head.
pub start_xmit_lem :
    (d : Device) (q : List ℕ) (skb len : ℕ) (a : DmaAnswer)
    → Holds d.priv q
    → d.regs.tx_tail ≡ d.priv.tx_head
    → let (r, d') = start_xmit skb len a d in
      let (r', q', freed) = enqueue q skb a.mapped in
      (r ≡ r')
      × Holds d'.priv q'
      × (d'.skbs_freed ≡ d.skbs_freed ++ freed)
      × (d'.queue_stopped ≡ ((length q == 63) || d.queue_stopped))
      × (d'.regs.tx_tail ≡ d'.priv.tx_head)
unfolding start_xmit queue_skb drop_skb
start_xmit_lem d q skb len a h t = elim (Bool-cases (tx_ring_full d.priv)) [
  | inl full ↦ rw (full, sym (full_test h) ∙ full) (refl, h, sym (append-nil d.skbs_freed), refl, t)
  | inr room ↦ elim (Bool-cases a.mapped) [
    | inl ok ↦
        rw (room, sym (full_test h) ∙ room, ok)
          (
            refl,
            queue_skb-Holds d q h skb len a.address (not_full h room),
            sym (append-nil d.skbs_freed),
            refl,
            refl,
          )
    | inr failed ↦
        rw (room, sym (full_test h) ∙ room, failed)
          (refl, drop_skb-Holds d q h skb len a.address, refl, refl, t)
  ]
]
