-- ===== src/Edunic/Tx.antt =====
-- linux_nic_lab/driver/nic_tx.c: transmission and the reclaiming of what was sent.
use linux_network_lab.Base.{
  ℕ, zero, suc, ◌+◌, ◌-◌, ◌%◌, ◌^◌, Bool, true, false, not, ◌&&◌, List, [], ◌∷◌, ◌++◌, Option, none,
  some, length, ◌==◌, leb, if◌then◌else◌,
}
use linux_network_lab.NetDevice.Tx.{TxResult, tx_ok, tx_busy, DmaAnswer}
use linux_network_lab.Edunic.Adapter.{
  edunic_ring_size, edunic_next, add_u64, update, Skb, zero_buf, EdunicTxRing, EdunicAdapter,
}

abbrev pub desc_per_pkt : ℕ
desc_per_pkt = 1

-- The operands of the C subtraction are below `count`, which is added first here.
unfoldable pub edunic_tx_unused : EdunicTxRing → ℕ
edunic_tx_unused r = (r.next_to_clean + edunic_ring_size - r.next_to_use - 1) % edunic_ring_size

abbrev pub tx_has_room : ℕ → EdunicAdapter → Bool
tx_has_room needed a = leb needed (edunic_tx_unused a.tx_ring)

abbrev pub netif_stop_queue : EdunicAdapter → EdunicAdapter
netif_stop_queue a = record a { queue_stopped = true }

abbrev pub netif_wake_queue : EdunicAdapter → EdunicAdapter
netif_wake_queue a = record a { queue_stopped = false }

-- Whether the result is -EBUSY, and the adapter, when no other CPU runs meanwhile.
unfoldable pub edunic_maybe_stop_tx : ℕ → EdunicAdapter → Bool × EdunicAdapter
edunic_maybe_stop_tx needed a =
    if tx_has_room needed a
    then (false, a)
    else if not (tx_has_room needed (netif_stop_queue a))
    then (true, netif_stop_queue a)
    else (false, netif_wake_queue (netif_stop_queue a))

-- The skb takes the place `next_to_use`, and the doorbell hands it to the chip, whose work item is
-- queued. The command is EOP and RS.
unfoldable pub post_skb : Skb → ℕ → EdunicAdapter → EdunicAdapter
post_skb skb address a =
    let i = a.tx_ring.next_to_use in
    record a {
      tx_ring = record a.tx_ring {
        desc = update a.tx_ring.desc i (record {
          buffer_addr = address;
          length = length skb.bytes % 2 ^ 16;
          cmd = 3;
          finished = false;
        });
        buf =
            update a.tx_ring.buf i
              (record { skb = some skb; dma = address; len = length skb.bytes });
        next_to_use = edunic_next i;
      };
      regs = record a.regs { tdt = edunic_next i };
      work_queued = true;
    }

unfoldable pub count_tx_error : Skb → EdunicAdapter → EdunicAdapter
count_tx_error skb a = record a {
  freed = a.freed ++ skb ∷ [];
  stats = record a.stats { tx_errors = add_u64 a.stats.tx_errors 1 };
}

unfoldable pub edunic_start_xmit : Skb → DmaAnswer → EdunicAdapter → TxResult × EdunicAdapter
edunic_start_xmit skb ans a =
    let (busy, b) = edunic_maybe_stop_tx desc_per_pkt a in
    if busy
    then (tx_busy, b)
    else if not ans.mapped
    then (tx_ok, count_tx_error skb b)
    else (tx_ok, (edunic_maybe_stop_tx desc_per_pkt (post_skb skb ans.address b)).1)

-- The adapter and the local counters of `edunic_clean_tx_irq`.
pub record TxCleaning : Type 0 where
  pub adapter : EdunicAdapter
  pub packets : ℕ
  pub bytes : ℕ

unfoldable pub may_reclaim : EdunicTxRing → Bool
may_reclaim r = not (r.next_to_clean == r.next_to_use) && (r.desc r.next_to_clean).finished

abbrev pub skb_list : Option Skb → List Skb
skb_list none = []
skb_list (some skb) = skb ∷ []

unfoldable pub reclaim_one : EdunicAdapter → EdunicAdapter
reclaim_one a =
    let i = a.tx_ring.next_to_clean in
    record a {
      tx_ring = record a.tx_ring {
        desc = update a.tx_ring.desc i (record (a.tx_ring.desc i) { finished = false });
        buf = update a.tx_ring.buf i zero_buf;
        next_to_clean = edunic_next i;
      };
      consumed = a.consumed ++ skb_list (a.tx_ring.buf i).skb;
    }

abbrev pub reclaim : TxCleaning → TxCleaning
reclaim s = record {
  adapter = reclaim_one s.adapter;
  packets = s.packets + 1;
  bytes = (s.bytes + (s.adapter.tx_ring.buf s.adapter.tx_ring.next_to_clean).len) % 2 ^ 32;
}

-- Each round reclaims one descriptor of a ring, so as many rounds as it has are enough.
unfoldable pub reclaim_loop : ℕ → TxCleaning → TxCleaning
reclaim_loop zero s = s
reclaim_loop (suc rounds) s = elim (may_reclaim s.adapter.tx_ring) [
  | true ↦ reclaim_loop rounds (reclaim s)
  | false ↦ s
]

abbrev pub count_sent : TxCleaning → EdunicAdapter
count_sent s = record s.adapter {
  stats = record s.adapter.stats {
    tx_packets = add_u64 s.adapter.stats.tx_packets s.packets;
    tx_bytes = add_u64 s.adapter.stats.tx_bytes s.bytes;
  };
}

-- The loop, `next_to_clean` and the counters; and whether anything was reclaimed.
unfoldable pub reclaim_done : EdunicAdapter → ℕ × EdunicAdapter
reclaim_done a =
    let s = reclaim_loop edunic_ring_size (record { adapter = a; packets = 0; bytes = 0 }) in
    (s.packets, if s.packets == 0 then s.adapter else count_sent s)

-- What stands after the counters, if anything was reclaimed.
unfoldable pub wake_tx : ℕ → EdunicAdapter → EdunicAdapter
wake_tx packets a =
    if (not (packets == 0) && a.queue_stopped) && tx_has_room desc_per_pkt a
    then netif_wake_queue a
    else a

unfoldable pub edunic_clean_tx_irq : EdunicAdapter → ℕ × EdunicAdapter
edunic_clean_tx_irq a = let (packets, b) = reclaim_done a in (packets, wake_tx packets b)
