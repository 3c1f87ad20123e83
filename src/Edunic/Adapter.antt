-- ===== src/Edunic/Adapter.antt =====
-- linux_nic_lab/driver/nic.h: descriptors, rings, registers and the adapter.
use linux_network_lab.Base.{
  ℕ, ◌+◌, ◌%◌, ◌^◌, ◌≡◌, ◌≢◌, arith, Bool, List, Option, none, false, ℤ, ◌==◌, if◌then◌else◌,
}

abbrev pub edunic_ring_size : ℕ
edunic_ring_size = 256

-- `(i + 1) & EDUNIC_RING_MASK`
abbrev pub edunic_next : ℕ → ℕ
edunic_next i = (i + 1) % edunic_ring_size

abbrev pub edunic_rx_buf_size : ℕ
edunic_rx_buf_size = 2048

-- A counter of 64 bits.
abbrev pub add_u64 : ℕ → ℕ → ℕ
add_u64 a b = (a + b) % 2 ^ 64

-- An array as a function of the index, and a write to it.
abbrev pub update {ℓ} : {A : Type ℓ} → (ℕ → A) → ℕ → A → ℕ → A
update f i x j = if i == j then x else f j

pub update_self {ℓ} : {A : Type ℓ} (f : ℕ → A) (i : ℕ) (x : A) (j : ℕ) → i ≡ j → update f i x j ≡ x
update_self f i x j e = ground arith

pub update_ne {ℓ} : {A : Type ℓ} (f : ℕ → A) (i : ℕ) (x : A) (j : ℕ) → i ≢ j → update f i x j ≡ f j
update_ne f i x j n = ground arith

-- An skb: which one it is, and its bytes.
pub record Skb : Type 0 where
  pub id : ℕ
  pub bytes : List ℕ

-- struct edunic_tx_desc; `finished` is EDUNIC_TXD_STAT_DD.
pub record EdunicTxDesc : Type 0 where
  pub buffer_addr : ℕ
  pub length : ℕ
  pub cmd : ℕ
  pub finished : Bool

-- struct edunic_rx_desc; the three status bits, and EDUNIC_RXD_ERR_RXE.
pub record EdunicRxDesc : Type 0 where
  pub buffer_addr : ℕ
  pub length : ℕ
  pub finished : Bool
  pub eop : Bool
  pub csum_valid : Bool
  pub rxe : Bool

-- struct edunic_tx_buf and struct edunic_rx_buf
pub record EdunicBuf : Type 0 where
  pub skb : Option Skb
  pub dma : ℕ
  pub len : ℕ

abbrev pub zero_buf : EdunicBuf
zero_buf = record { skb = none; dma = 0; len = 0 }

-- struct edunic_tx_ring; from set-up on `count` is EDUNIC_RING_SIZE.
pub record EdunicTxRing : Type 0 where
  pub desc : ℕ → EdunicTxDesc
  pub dma : ℕ
  pub buf : ℕ → EdunicBuf
  pub next_to_use : ℕ
  pub next_to_clean : ℕ

pub record EdunicRxRing : Type 0 where
  pub desc : ℕ → EdunicRxDesc
  pub dma : ℕ
  pub buf : ℕ → EdunicBuf
  pub next_to_use : ℕ
  pub next_to_clean : ℕ

pub record EdunicStats : Type 0 where
  pub tx_packets : ℕ
  pub tx_bytes : ℕ
  pub tx_errors : ℕ
  pub rx_packets : ℕ
  pub rx_bytes : ℕ
  pub rx_errors : ℕ
  pub rx_dropped : ℕ

-- EDUNIC_INT_TX, EDUNIC_INT_RX and EDUNIC_INT_LSC
pub record Causes : Type 0 where
  pub tx : Bool
  pub rx : Bool
  pub lsc : Bool

abbrev pub no_causes : Causes
no_causes = record { tx = false; rx = false; lsc = false }

-- The register file that nic.h describes. `icr` holds the causes that wait, `ims` those that are
-- not masked, and CTRL and STATUS are given by their bits.
pub record EdunicRegs : Type 0 where
  pub rst : Bool
  pub txen : Bool
  pub rxen : Bool
  pub linkup : Bool
  pub mac_low : ℕ
  pub mac_high : ℕ
  pub tdbal : ℕ
  pub tdbah : ℕ
  pub tdlen : ℕ
  pub rdbal : ℕ
  pub rdbah : ℕ
  pub rdlen : ℕ
  pub tdh : ℕ
  pub tdt : ℕ
  pub rdh : ℕ
  pub rdt : ℕ
  pub icr : Causes
  pub ims : Causes

-- The six bytes of an address.
pub record MacAddress : Type 0 where
  pub byte0 : ℕ
  pub byte1 : ℕ
  pub byte2 : ℕ
  pub byte3 : ℕ
  pub byte4 : ℕ
  pub byte5 : ℕ

-- struct edunic_adapter, and of the net_device and NAPI what the driver's calls change: whether the
-- queue is stopped, the carrier, whether NAPI is enabled, on the schedule, and was asked for
-- meanwhile, whether interrupt vectors and the handler are held, and its address and MTU. `work_queued` and
-- `timer_armed` stand for the work item and the timer of the chip.
pub record EdunicAdapter : Type 0 where
  pub tx_ring : EdunicTxRing
  pub rx_ring : EdunicRxRing
  pub stats : EdunicStats
  pub regs : EdunicRegs
  pub work_queued : Bool
  pub timer_armed : Bool
  pub link_up : Bool
  pub queue_stopped : Bool
  pub carrier : Bool
  pub napi_enabled : Bool
  pub napi_scheduled : Bool
  pub napi_missed : Bool
  pub vectors : Bool
  pub irq_requested : Bool
  pub dev_addr : MacAddress
  pub mtu : ℤ
  -- skbs that `dev_kfree_skb` and `dev_kfree_skb_any` freed
  pub freed : List Skb
  -- skbs that `dev_consume_skb_any` freed
  pub consumed : List Skb
  -- frames that `napi_gro_receive` was given, and whether their checksum counts as verified
  pub gro : List (List ℕ × Bool)
