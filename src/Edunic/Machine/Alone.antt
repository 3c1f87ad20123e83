-- ===== src/Edunic/Machine/Alone.antt =====
-- linux_nic_lab/driver/nic_tx.c: `edunic_start_xmit` as the steps of one thread.
use linux_network_lab.Base.{
  ℕ, zero, suc, ◌≡◌, refl, ap, ◌∙◌, true, false, ◌&&◌, inl, inr, List, [], ◌∷◌, ◌++◌, append-nil,
  sym, Bool-cases, if◌then◌else◌,
}
use linux_network_lab.NetDevice.Tx.{DmaAnswer}
use linux_network_lab.Edunic.Adapter.{Skb, EdunicAdapter}
use linux_network_lab.Edunic.Tx.{
  netif_stop_queue, tx_has_room, desc_per_pkt, edunic_maybe_stop_tx, post_skb, count_tx_error,
  edunic_start_xmit,
}
use linux_network_lab.Edunic.Machine.{
  Next, to_map, to_return, XmitPc, outside, checking, stopping, rechecking, mapping, WorkerPc,
  PollPc, go_on, Machine, xmit_step,
}

abbrev pub alone : ℕ → Machine → Machine
alone zero m = m
alone (suc n) m = alone n (xmit_step m)

-- The skbs that the ring takes.
abbrev pub taken : EdunicAdapter → Skb → DmaAnswer → List Skb
taken a skb ans = if tx_has_room desc_per_pkt a && ans.mapped then skb ∷ [] else []

module _ (a : EdunicAdapter) (k : WorkerPc) (p : PollPc) (posted : List Skb) where
  abbrev at_pc : XmitPc → Machine
  at_pc x = record { adapter = a; xmit = x; worker = k; poll = p; posted = posted }

  check_yes :
      (n : Next)
      → tx_has_room desc_per_pkt a ≡ true
      → xmit_step (at_pc (checking n)) ≡ at_pc (go_on n)
  unfolding xmit_step
  check_yes n e = rw e refl

  check_no :
      (n : Next)
      → tx_has_room desc_per_pkt a ≡ false
      → xmit_step (at_pc (checking n)) ≡ at_pc (stopping n)
  unfolding xmit_step
  check_no n e = rw e refl

  recheck_no :
      (n : Next)
      → tx_has_room desc_per_pkt a ≡ false
      → xmit_step (at_pc (rechecking n)) ≡ at_pc outside
  unfolding xmit_step
  recheck_no (to_map skb ans) e = rw e refl
  recheck_no to_return e = rw e refl

  stop_step :
      (n : Next)
      → xmit_step (at_pc (stopping n))
        ≡ record (at_pc (rechecking n)) { adapter = netif_stop_queue a }
  unfolding xmit_step
  stop_step n = refl

  map_failed :
      (skb : Skb) (ans : DmaAnswer)
      → ans.mapped ≡ false
      → xmit_step (at_pc (mapping skb ans))
        ≡ record (at_pc outside) { adapter = count_tx_error skb a }
  unfolding xmit_step
  map_failed skb ans e = rw e refl

  map_done :
      (skb : Skb) (ans : DmaAnswer)
      → ans.mapped ≡ true
      → xmit_step (at_pc (mapping skb ans)) ≡ record (at_pc (checking to_return)) {
        adapter = post_skb skb ans.address a;
        posted = posted ++ skb ∷ [];
      }
  unfolding xmit_step
  map_done skb ans e = rw e refl

  stays : xmit_step (at_pc outside) ≡ at_pc outside
  unfolding xmit_step
  stays = refl

  idle : (n : ℕ) → alone n (at_pc outside) ≡ at_pc outside
  idle zero = refl
  idle (suc n) = ap (alone n) stays ∙ idle n

-- The three branches, and the last test.
module _ (a : EdunicAdapter) (k : WorkerPc) (p : PollPc) (posted : List Skb) where
  full_run :
      (n : Next) (steps : ℕ)
      → tx_has_room desc_per_pkt a ≡ false
      → alone (suc (suc (suc steps))) (at_pc a k p posted (checking n))
        ≡ at_pc (netif_stop_queue a) k p posted outside
  full_run n steps e =
      ap (alone (suc (suc steps))) (check_no a k p posted n e)
      ∙ ap (alone (suc steps)) (stop_step a k p posted n)
      ∙ ap (alone steps) (recheck_no (netif_stop_queue a) k p posted n e)
      ∙ idle (netif_stop_queue a) k p posted steps

module _ (a : EdunicAdapter) (k : WorkerPc) (p : PollPc) (posted : List Skb) where
  last_test :
      alone 3 (at_pc a k p posted (checking to_return))
      ≡ at_pc (edunic_maybe_stop_tx desc_per_pkt a).1 k p posted outside
  unfolding edunic_maybe_stop_tx
  last_test = elim (Bool-cases (tx_has_room desc_per_pkt a)) [
    | inl e ↦ ap (alone 2) (check_yes a k p posted to_return e) ∙ rw e (idle a k p posted 2)
    | inr e ↦ rw e (full_run a k p posted to_return 0 e)
  ]

module _ (a : EdunicAdapter) (k : WorkerPc) (p : PollPc) (posted : List Skb) where
  room_run :
      (skb : Skb) (ans : DmaAnswer) (steps : ℕ)
      → tx_has_room desc_per_pkt a ≡ true
      → alone (suc steps) (at_pc a k p posted (checking (to_map skb ans)))
        ≡ alone steps (at_pc a k p posted (mapping skb ans))
  room_run skb ans steps e = ap (alone steps) (check_yes a k p posted (to_map skb ans) e)

  dropped_run :
      (skb : Skb) (ans : DmaAnswer)
      → ans.mapped ≡ false
      → alone 4 (at_pc a k p posted (mapping skb ans))
        ≡ at_pc (count_tx_error skb a) k p posted outside
  dropped_run skb ans u =
      ap (alone 3) (map_failed a k p posted skb ans u) ∙ idle (count_tx_error skb a) k p posted 3

  posted_run :
      (skb : Skb) (ans : DmaAnswer)
      → ans.mapped ≡ true
      → alone 4 (at_pc a k p posted (mapping skb ans))
        ≡ at_pc
            (edunic_maybe_stop_tx desc_per_pkt (post_skb skb ans.address a)).1
            k
            p
            (posted ++ skb ∷ [])
            outside
  posted_run skb ans b =
      ap (alone 3) (map_done a k p posted skb ans b)
      ∙ last_test (post_skb skb ans.address a) k p (posted ++ skb ∷ [])

-- If no other thread runs meanwhile, five steps of the transmit path do what `edunic_start_xmit`
-- does, and leave it; an skb is posted exactly if there is room and it can be mapped.
pub start_xmit-alone :
    (skb : Skb) (ans : DmaAnswer) (m : Machine)
    → let n = alone 5 (record m { xmit = checking (to_map skb ans) }) in
      (n.adapter ≡ (edunic_start_xmit skb ans m.adapter).1)
      × (n.xmit ≡ outside)
      × (n.posted ≡ m.posted ++ taken m.adapter skb ans)
unfolding edunic_start_xmit edunic_maybe_stop_tx
start_xmit-alone skb ans m = elim (Bool-cases (tx_has_room desc_per_pkt m.adapter)) [
  | inr e ↦
      rw (full_run m.adapter m.worker m.poll m.posted (to_map skb ans) 2 e)
        (rw e (refl, refl, sym (append-nil m.posted)))
  | inl e ↦ elim (Bool-cases ans.mapped) [
    | inr u ↦
        rw
          (room_run m.adapter m.worker m.poll m.posted skb ans 4 e
            ∙ dropped_run m.adapter m.worker m.poll m.posted skb ans u)
          (rw (e, u) (refl, refl, sym (append-nil m.posted)))
    | inl b ↦
        rw
          (room_run m.adapter m.worker m.poll m.posted skb ans 4 e
            ∙ posted_run m.adapter m.worker m.poll m.posted skb ans b)
          (rw (e, b) (refl, refl, refl))
  ]
]
