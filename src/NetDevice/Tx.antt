-- ===== src/NetDevice/Tx.antt =====
-- net_device/simple_netdev.c: transmission, `my_tx_ring_full`, `my_start_xmit`, `my_tx_clean` and
-- `my_free_pending_tx`.
pub mod Queue
pub mod Xmit
pub mod Clean
pub mod Pending
pub mod Race
pub mod Runs
use linux_network_lab.Base.{
  ℕ, zero, suc, ◌%◌, Bool, true, false, not, ◌&&◌, List, [], ◌∷◌, ◌++◌, Option, none, some, set,
  map, add_u32, ◌==◌, if◌then◌else◌,
}
use linux_network_lab.NetDevice.Device.{
  tx_ring_size, TxDesc, Priv, Registers, Mapping, Device, tx_desc,
}

-- netdev_tx_t
pub data TxResult : Type 0 where
  tx_ok tx_busy : TxResult

-- What `dma_map_single` returns, and whether `dma_mapping_error` accepts it.
pub record DmaAnswer : Type 0 where
  pub address : ℕ
  pub mapped : Bool

abbrev pub next_tx : ℕ → ℕ
next_tx i = add_u32 i 1 % tx_ring_size

unfoldable pub tx_ring_full : Priv → Bool
tx_ring_full p = next_tx p.tx_head == p.tx_clean

-- The descriptor as it is handed to the NIC.
abbrev pub filled_desc : ℕ → ℕ → ℕ → TxDesc
filled_desc skb len address = record {
  skb = some skb;
  dma_addr = address;
  len = len;
  owned_by_hw = true;
  finished = false;
}

-- The head moves on, and the doorbell tells the NIC.
unfoldable pub queue_skb : ℕ → ℕ → ℕ → Device → Device
queue_skb skb len address d = record d {
  priv = record d.priv {
    tx_ring = set d.priv.tx_ring d.priv.tx_head (filled_desc skb len address);
    tx_head = next_tx d.priv.tx_head;
  };
  regs = record d.regs { tx_tail = next_tx d.priv.tx_head };
}

-- The address is written to the descriptor before it is tested.
unfoldable pub drop_skb : ℕ → ℕ → Device → Device
drop_skb skb address d = record d {
  priv = record d.priv {
    tx_ring =
        set d.priv.tx_ring d.priv.tx_head
          (record (tx_desc d.priv.tx_ring d.priv.tx_head) { dma_addr = address });
  };
  skbs_freed = d.skbs_freed ++ skb ∷ [];
}

-- A full ring stops the queue and refuses the skb.
abbrev pub stop_queue : Device → Device
stop_queue d = record d { queue_stopped = true }

unfoldable pub start_xmit : ℕ → ℕ → DmaAnswer → Device → TxResult × Device
start_xmit skb len a d =
    if tx_ring_full d.priv
    then (tx_busy, stop_queue d)
    else if not a.mapped
    then (tx_ok, drop_skb skb a.address d)
    else (tx_ok, queue_skb skb len a.address d)

abbrev pub skbs : Option ℕ → List ℕ
skbs none = []
skbs (some skb) = skb ∷ []

-- The loop of `my_tx_clean` goes on while a descriptor is in use, given back by the NIC, and done.
unfoldable pub may_clean : Priv → Bool
may_clean p =
    not (p.tx_clean == p.tx_head)
    && (not (tx_desc p.tx_ring p.tx_clean).owned_by_hw && (tx_desc p.tx_ring p.tx_clean).finished)

unfoldable pub clean_one : Device → Device
clean_one d = record d {
  priv = record d.priv {
    tx_ring =
        set d.priv.tx_ring d.priv.tx_clean
          (record { skb = none; dma_addr = 0; len = 0; owned_by_hw = false; finished = false });
    tx_clean = next_tx d.priv.tx_clean;
  };
  skbs_freed = d.skbs_freed ++ skbs (tx_desc d.priv.tx_ring d.priv.tx_clean).skb;
  unmapped =
      d.unmapped
      ++ (
        (tx_desc d.priv.tx_ring d.priv.tx_clean).dma_addr,
        (tx_desc d.priv.tx_ring d.priv.tx_clean).len,
      )
        ∷ [];
}

-- Each round cleans one descriptor of a ring, so as many rounds as it has are enough.
unfoldable pub clean_loop : ℕ → Device → Device
clean_loop zero d = d
clean_loop (suc rounds) d = elim (may_clean d.priv) [
  | true ↦ clean_loop rounds (clean_one d)
  | false ↦ d
]

-- A stopped queue is woken once the ring has room.
unfoldable pub wake : Device → Device
wake d =
    if d.queue_stopped && not (tx_ring_full d.priv) then record d { queue_stopped = false } else d

unfoldable pub tx_clean : Device → Device
tx_clean d = wake (clean_loop tx_ring_size d)

-- `my_free_pending_tx`: each descriptor that has an skb is unmapped, and loses it.
abbrev pub without_skb : TxDesc → TxDesc
without_skb t = record t { skb = none }

abbrev pub mappings : TxDesc → List Mapping
mappings t = elim t.skb [ none ↦ [] | some skb ↦ (t.dma_addr, t.len) ∷ [] ]

unfoldable pub pending_skbs : List TxDesc → List ℕ
pending_skbs [] = []
pending_skbs (t ∷ ring) = skbs t.skb ++ pending_skbs ring

unfoldable pub pending_mappings : List TxDesc → List Mapping
pending_mappings [] = []
pending_mappings (t ∷ ring) = mappings t ++ pending_mappings ring

-- A ring that is NULL has nothing to free, as the empty list has.
unfoldable pub free_pending_tx : Device → Device
free_pending_tx d = record d {
  priv = record d.priv { tx_ring = map without_skb d.priv.tx_ring };
  skbs_freed = d.skbs_freed ++ pending_skbs d.priv.tx_ring;
  unmapped = d.unmapped ++ pending_mappings d.priv.tx_ring;
}
