-- ===== src/NetDevice/Tx/Runs.antt =====
-- net_device/simple_netdev.c: every skb that the stack hands over, through any sequence of calls.
use mathlib.Core.List.{Perm, perm_append_comm}
use mathlib.Core.List.Perm
use linux_network_lab.Base.{
  ℕ, zero, suc, ◌≡◌, refl, sym, ap, ◌∙◌, Bool, true, false, List, [], ◌∷◌, ◌++◌, append-nil,
  append_assoc, arith, length, take, drop, set, take-append-drop, ◌==◌, if◌then◌else◌, Bool-cases,
  inl, inr, length-set,
}
use linux_network_lab.NetDevice.Device.{Device, TxDesc, tx_desc}
use linux_network_lab.NetDevice.Tx.{
  TxResult, tx_ok, tx_busy, DmaAnswer, start_xmit, tx_clean, free_pending_tx,
}
use linux_network_lab.NetDevice.Tx.Pending.{Holds-pending}
use linux_network_lab.NetDevice.Tx.Queue.{Holds}
use linux_network_lab.NetDevice.Tx.Xmit.{enqueue, start_xmit_lem}
use linux_network_lab.NetDevice.Tx.Clean.{completed, tx_clean_lem}

-- The NIC has sent what a descriptor that it owns points to, and gives the descriptor back.
pub nic_send : ℕ → Device → Device
nic_send i d =
    if (tx_desc d.priv.tx_ring i).owned_by_hw
    then record d {
      priv = record d.priv {
        tx_ring =
            set d.priv.tx_ring i
              (record (tx_desc d.priv.tx_ring i) { owned_by_hw = false; finished = true });
      };
    }
    else d

-- The stack's calls, the cleaning on an interrupt, and the NIC, in any order.
pub data TxOp : Type 0 where
  xmit : ℕ → ℕ → DmaAnswer → TxOp
  clean : TxOp
  send : ℕ → TxOp

-- An skb is handed over unless the driver answers NETDEV_TX_BUSY.
pub handed_over : ℕ → TxResult → List ℕ
handed_over skb tx_ok = skb ∷ []
handed_over skb tx_busy = []

pub tx_step : TxOp → Device × List ℕ → Device × List ℕ
tx_step (xmit skb len a) (d, given) =
    let (r, d') = start_xmit skb len a d in (d', given ++ handed_over skb r)
tx_step clean (d, given) = (tx_clean d, given)
tx_step (send i) (d, given) = (nic_send i d, given)

pub tx_run : List TxOp → Device × List ℕ → Device × List ℕ
tx_run [] s = s
tx_run (op ∷ ops) s = tx_run ops (tx_step op s)

-- The queue that the ring holds, and the skbs handed over so far.
pub record Owned (d : Device) (given : List ℕ) : Type 0 where
  pub queue : List ℕ
  pub holds : Holds d.priv queue
  pub tail_at : d.regs.tx_tail ≡ d.priv.tx_head
  pub owned : Perm given (d.skbs_freed ++ queue)

set_same_skb :
    (ring : List TxDesc) (i j : ℕ) (v : TxDesc)
    → v.skb ≡ (tx_desc ring i).skb
    → (tx_desc (set ring i v) j).skb ≡ (tx_desc ring j).skb
set_same_skb [] i j v e = refl
set_same_skb (x ∷ ring) zero zero v e = e
set_same_skb (x ∷ ring) zero (suc j) v e = refl
set_same_skb (x ∷ ring) (suc i) zero v e = refl
set_same_skb (x ∷ ring) (suc i) (suc j) v e = set_same_skb ring i j v e

-- The NIC moves no skb.
pub Holds-nic_send :
    (i : ℕ) (d : Device) (q : List ℕ) → Holds d.priv q → Holds (nic_send i d).priv q
unfolding nic_send
Holds-nic_send i d q h = elim (Bool-cases (tx_desc d.priv.tx_ring i).owned_by_hw) [
  | inl owned ↦ rw owned (record {
    whole = length-set d.priv.tx_ring i _ ∙ h.whole;
    clean_in = h.clean_in;
    room = h.room;
    head_at = h.head_at;
    held = λ k hk. set_same_skb d.priv.tx_ring i _ _ refl ∙ h.held k hk;
    vacant = λ j hj v. set_same_skb d.priv.tx_ring i j _ refl ∙ h.vacant j hj v;
  })
  | inr other ↦ rw other h
]

nic_send_rest :
    (i : ℕ) (d : Device)
    → ((nic_send i d).skbs_freed ≡ d.skbs_freed)
      × ((nic_send i d).regs ≡ d.regs)
      × ((nic_send i d).priv.tx_head ≡ d.priv.tx_head)
unfolding nic_send
nic_send_rest i d = ground arith

-- One more skb stands with what is freed or queued.
enqueue-perm :
    (given freed q : List ℕ) (skb : ℕ) (mapped : Bool)
    → Perm given (freed ++ q)
    → let (r, q', out) = enqueue q skb mapped in
      Perm (given ++ handed_over skb r) ((freed ++ out) ++ q')
unfolding handed_over
enqueue-perm given freed q skb mapped p = elim (Bool-cases (length q == 63)) [
  | inl full ↦ rw (full, append-nil given, append-nil freed) p
  | inr room ↦ elim (Bool-cases mapped) [
    | inl ok ↦
        rw (room, ok, append-nil freed, ← append_assoc freed q (skb ∷ []))
          (Perm.append_right (skb ∷ []) p)
    | inr failed ↦
        rw (room, failed)
          (Perm.trans (Perm.append_right (skb ∷ []) p) (
            rw (append_assoc freed q (skb ∷ []), append_assoc freed (skb ∷ []) q)
              (Perm.append_left freed (perm_append_comm q (skb ∷ [])))))
  ]
]

step-Owned :
    (op : TxOp) (d : Device) (given : List ℕ)
    → Owned d given
    → let (d', given') = tx_step op (d, given) in Owned d' given'
unfolding tx_step
step-Owned (xmit skb len a) d given o =
    let x = start_xmit_lem d o.queue skb len a o.holds o.tail_at in
    record {
      queue = (enqueue o.queue skb a.mapped).1;
      holds = x.1;
      tail_at = x.4;
      owned = rw (x.0, x.2) (enqueue-perm given d.skbs_freed o.queue skb a.mapped o.owned);
    }
step-Owned clean d given o =
    let c = tx_clean_lem d o.queue o.holds in
    let n = completed d.priv.tx_ring d.priv.tx_clean o.queue in
    record {
      queue = drop n o.queue;
      holds = c.0;
      tail_at = ap (λ r. r.tx_tail) c.4 ∙ o.tail_at ∙ sym c.3;
      owned =
          rw
            (
              c.1,
              append_assoc d.skbs_freed (take n o.queue) (drop n o.queue),
              take-append-drop n o.queue,
            )
            o.owned;
    }
step-Owned (send i) d given o =
    let r = nic_send_rest i d in
    record {
      queue = o.queue;
      holds = Holds-nic_send i d o.queue o.holds;
      tail_at = ap (λ x. x.tx_tail) r.1 ∙ o.tail_at ∙ sym r.2;
      owned = rw r.0 o.owned;
    }

run-Owned :
    (ops : List TxOp) (d : Device) (given : List ℕ)
    → Owned d given
    → let (d', given') = tx_run ops (d, given) in Owned d' given'
unfolding tx_run
run-Owned [] d given o = o
run-Owned (op ∷ ops) d given o =
    let (d', given') = tx_step op (d, given) in run-Owned ops d' given' (step-Owned op d given o)

-- From an empty ring on, in any sequence of transmissions, cleanings and sends by the NIC, the skbs
-- that the driver took are those that it has freed and those in its queue, each once; and
-- `my_free_pending_tx` afterwards frees the latter, so that each is freed exactly once.
pub tx_run_freed :
    (ops : List TxOp) (d : Device)
    → Holds d.priv []
    → d.regs.tx_tail ≡ d.priv.tx_head
    → d.skbs_freed ≡ []
    → let (d', given) = tx_run ops (d, []) in
      ((q : List ℕ) × Holds d'.priv q × Perm given (d'.skbs_freed ++ q))
      × Perm given (free_pending_tx d').skbs_freed
unfolding free_pending_tx
tx_run_freed ops d h t e =
    let (d', given) = tx_run ops (d, []) in
    let o =
      run-Owned ops d []
        (record { queue = []; holds = h; tail_at = t; owned = rw e (Perm.refl []) }) in
    (
      (o.queue, o.holds, o.owned),
      Perm.trans o.owned
          (Perm.append_left d'.skbs_freed (Perm.symm (Holds-pending o.queue d' o.holds))),
    )
