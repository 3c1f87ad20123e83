-- ===== src/NetDevice/Device.antt =====
-- net_device/simple_netdev.c: the driver's private data, the registers of the NIC, and what the
-- kernel has seen of the driver.
use linux_network_lab.Base.{ℕ, Bool, false, List, [], Option, none, get_or}

abbrev pub rx_ring_size : ℕ
rx_ring_size = 64

abbrev pub tx_ring_size : ℕ
tx_ring_size = 64

abbrev pub rx_buffer_size : ℕ
rx_buffer_size = 2048

-- IRQ_RX and IRQ_TX, as the two bits of IRQ_STATUS and IRQ_MASK.
pub record Irqs : Type 0 where
  pub rx : Bool
  pub tx : Bool

-- `struct my_rx_desc`. A buffer is named by a number, and NULL is `none`; `frame` is what stands in
-- the buffer, which no other descriptor has. `finished` is the field `done`.
pub record RxDesc : Type 0 where
  pub buf : Option ℕ
  pub frame : List ℕ
  pub dma_addr : ℕ
  pub len : ℕ
  pub owned_by_hw : Bool
  pub finished : Bool

-- `struct my_tx_desc`. An skb is named by a number.
pub record TxDesc : Type 0 where
  pub skb : Option ℕ
  pub dma_addr : ℕ
  pub len : ℕ
  pub owned_by_hw : Bool
  pub finished : Bool

-- A ring that `memset` has filled with zeros holds these.
abbrev pub zero_rx_desc : RxDesc
zero_rx_desc = record {
  buf = none;
  frame = [];
  dma_addr = 0;
  len = 0;
  owned_by_hw = false;
  finished = false;
}

abbrev pub zero_tx_desc : TxDesc
zero_tx_desc = record { skb = none; dma_addr = 0; len = 0; owned_by_hw = false; finished = false }

-- `struct my_priv`. A ring that is NULL is the empty list.
pub record Priv : Type 0 where
  pub rx_ring : List RxDesc
  pub rx_ring_dma : ℕ
  pub rx_head : ℕ
  pub tx_ring : List TxDesc
  pub tx_ring_dma : ℕ
  pub tx_head : ℕ
  pub tx_clean : ℕ

-- The registers behind `mmio` that the driver touches.
pub record Registers : Type 0 where
  pub rx_base_low : ℕ
  pub rx_base_high : ℕ
  pub tx_base_low : ℕ
  pub tx_base_high : ℕ
  pub rx_tail : ℕ
  pub tx_tail : ℕ
  pub irq_status : Irqs
  pub irq_mask : Irqs

-- A DMA mapping: its address and length.
abbrev pub Mapping : Type 0
Mapping = ℕ × ℕ

-- The device as the kernel sees it: the transmit queue may be stopped, NAPI may be scheduled, skbs
-- have been freed, mappings taken back, and packets handed up, in order.
pub record Device : Type 0 where
  pub priv : Priv
  pub regs : Registers
  pub queue_stopped : Bool
  pub napi_scheduled : Bool
  pub skbs_freed : List ℕ
  pub unmapped : List Mapping
  pub handed_up : List (List ℕ)

abbrev pub tx_desc : List TxDesc → ℕ → TxDesc
tx_desc ring i = get_or ring i zero_tx_desc

abbrev pub rx_desc : List RxDesc → ℕ → RxDesc
rx_desc ring i = get_or ring i zero_rx_desc
