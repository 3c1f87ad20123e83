-- ===== src/NetDevice/Setup.antt =====
-- net_device/simple_netdev.c: the memory of the rings, `my_alloc_rx_desc_ring`,
-- `my_alloc_tx_desc_ring`, `my_alloc_rx_buffers`, `my_free_rx_buffers`, `my_free_desc_rings` and
-- `my_hw_init`.
pub mod Probe
pub mod Balance
pub mod Unwinding
pub mod Allocation
pub mod Labels
pub mod Accounts
pub mod Removal
pub mod Fresh
use linux_network_lab.Base.{
  ℕ, zero, suc, ◌+◌, ◌/◌, ◌%◌, ◌^◌, Bool, true, false, not, ◌&&◌, List, [], ◌∷◌, ◌++◌, Option, none,
  some, set, map, replicate, null, if◌then◌else◌,
}
use linux_network_lab.NetDevice.Device.{
  rx_ring_size, tx_ring_size, rx_buffer_size, Irqs, RxDesc, zero_rx_desc, zero_tx_desc, Priv,
  Registers, Device, rx_desc,
}
use linux_network_lab.NetDevice.Tx.{DmaAnswer}

-- What the driver takes from the kernel and gives back. Memory is named by its address, as the
-- kernel hands it out.
pub data Resource : Type 0 where
  pci_device regions net_device mmio napi irq registration : Resource
  rx_ring_memory tx_ring_memory : ℕ → Resource
  rx_buffer : ℕ → Resource
  rx_mapping : ℕ → ℕ → Resource

-- The device, and all that was taken and given back, in order.
pub record Machine : Type 0 where
  pub device : Device
  pub acquired : List Resource
  pub released : List Resource

abbrev pub acquire : Resource → Machine → Machine
acquire r m = record m { acquired = m.acquired ++ r ∷ [] }

abbrev pub release : Resource → Machine → Machine
release r m = record m { released = m.released ++ r ∷ [] }

abbrev pub with_rx_ring : List RxDesc → Machine → Machine
with_rx_ring ring m = record m {
  device = record m.device { priv = record m.device.priv { rx_ring = ring } };
}

abbrev pub enomem : ℕ
enomem = 12

-- `dma_alloc_coherent` answers with the address of the memory, or NULL. The result of these
-- functions is the error code, without its sign.
unfoldable pub alloc_rx_desc_ring : Option ℕ → Machine → Option ℕ × Machine
alloc_rx_desc_ring none m = (some enomem, m)
alloc_rx_desc_ring (some dma) m = (
  none,
  acquire (rx_ring_memory dma) (record m {
    device = record m.device {
      priv = record m.device.priv {
        rx_ring = replicate rx_ring_size zero_rx_desc;
        rx_ring_dma = dma;
        rx_head = 0;
      };
    };
  }),
)

unfoldable pub alloc_tx_desc_ring : Option ℕ → Machine → Option ℕ × Machine
alloc_tx_desc_ring none m = (some enomem, m)
alloc_tx_desc_ring (some dma) m = (
  none,
  acquire (tx_ring_memory dma) (record m {
    device = record m.device {
      priv = record m.device.priv {
        tx_ring = replicate tx_ring_size zero_tx_desc;
        tx_ring_dma = dma;
        tx_head = 0;
        tx_clean = 0;
      };
    };
  }),
)

-- The answers of `kmalloc` and `dma_map_single` for each descriptor.
pub record BufferAnswers : Type 0 where
  pub kmalloc : ℕ → Option ℕ
  pub map_rx : ℕ → DmaAnswer

abbrev pub without_buffer : RxDesc → RxDesc
without_buffer t = record t { buf = none }

-- One round of the loop; it says whether the loop goes on. A buffer that cannot be mapped is freed
-- at once.
unfoldable pub take_rx_buffer : Option ℕ → DmaAnswer → ℕ → Machine → Bool × Machine
take_rx_buffer none a i m = (
  false,
  with_rx_ring (set m.device.priv.rx_ring i (without_buffer (rx_desc m.device.priv.rx_ring i))) m,
)
take_rx_buffer (some b) a i m =
    let t = rx_desc m.device.priv.rx_ring i in
    if a.mapped
    then (
      true,
      acquire (rx_mapping a.address rx_buffer_size) (
          acquire (rx_buffer b) (
            with_rx_ring
              (set m.device.priv.rx_ring i (record t {
                buf = some b;
                dma_addr = a.address;
                len = 0;
                finished = false;
                owned_by_hw = true;
              }))
              m)),
    )
    else (
      false,
      release (rx_buffer b) (
          acquire (rx_buffer b) (
            with_rx_ring
              (set m.device.priv.rx_ring i (record t { buf = none; dma_addr = a.address })) m)),
    )

-- What freeing the buffer of a descriptor releases: its mapping, then the buffer.
abbrev pub buffer_parts : RxDesc → List Resource
buffer_parts t = elim t.buf [
  | none ↦ []
  | some b ↦ rx_mapping t.dma_addr rx_buffer_size ∷ rx_buffer b ∷ []
]

unfoldable pub free_rx_buffer : ℕ → Machine → Machine
free_rx_buffer i m = record m {
  device = record m.device {
    priv = record m.device.priv {
      rx_ring = set m.device.priv.rx_ring i (without_buffer (rx_desc m.device.priv.rx_ring i));
    };
  };
  released = m.released ++ buffer_parts (rx_desc m.device.priv.rx_ring i);
}

-- `kfree` of NULL does nothing.
abbrev pub kfree : Option ℕ → List Resource
kfree none = []
kfree (some b) = rx_buffer b ∷ []

-- The error path does not test for NULL before it takes the mapping back.
abbrev pub unwound_parts : RxDesc → List Resource
unwound_parts t = rx_mapping t.dma_addr rx_buffer_size ∷ kfree t.buf

unfoldable pub unwind_rx_buffer : ℕ → Machine → Machine
unwind_rx_buffer i m = record m {
  device = record m.device {
    priv = record m.device.priv {
      rx_ring = set m.device.priv.rx_ring i (without_buffer (rx_desc m.device.priv.rx_ring i));
    };
  };
  released = m.released ++ unwound_parts (rx_desc m.device.priv.rx_ring i);
}

-- `while(--i >= 0)`
unfoldable pub unwind_rx_buffers : ℕ → Machine → Machine
unwind_rx_buffers zero m = m
unwind_rx_buffers (suc i) m = unwind_rx_buffers i (unwind_rx_buffer i m)

-- The loop from `i` on, over the `left` descriptors that follow.
unfoldable pub alloc_rx_loop : BufferAnswers → ℕ → ℕ → Machine → Option ℕ × Machine
alloc_rx_loop a zero i m = (none, m)
alloc_rx_loop a (suc left) i m =
    let (goes_on, m') = take_rx_buffer (a.kmalloc i) (a.map_rx i) i m in
    elim goes_on [
      | true ↦ alloc_rx_loop a left (suc i) m'
      | false ↦ (some enomem, unwind_rx_buffers i m')
    ]

unfoldable pub alloc_rx_buffers : BufferAnswers → Machine → Option ℕ × Machine
alloc_rx_buffers a m = alloc_rx_loop a rx_ring_size 0 m

unfoldable pub free_rx_loop : ℕ → ℕ → Machine → Machine
free_rx_loop zero i m = m
free_rx_loop (suc left) i m = free_rx_loop left (suc i) (free_rx_buffer i m)

unfoldable pub free_rx_buffers : Machine → Machine
free_rx_buffers m = if null m.device.priv.rx_ring then m else free_rx_loop rx_ring_size 0 m

unfoldable pub free_rx_ring : Machine → Machine
free_rx_ring m =
    if null m.device.priv.rx_ring
    then m
    else release (rx_ring_memory m.device.priv.rx_ring_dma) (with_rx_ring [] m)

unfoldable pub free_tx_ring : Machine → Machine
free_tx_ring m =
    if null m.device.priv.tx_ring
    then m
    else release (tx_ring_memory m.device.priv.tx_ring_dma)
        (record m { device = record m.device { priv = record m.device.priv { tx_ring = [] } } })

unfoldable pub free_desc_rings : Machine → Machine
free_desc_rings m = free_tx_ring (free_rx_ring m)

-- The two halves of a 64-bit address.
abbrev pub lower_32_bits : ℕ → ℕ
lower_32_bits a = a % 2 ^ 32

abbrev pub upper_32_bits : ℕ → ℕ
upper_32_bits a = (a / 2 ^ 32) % 2 ^ 32

unfoldable pub hw_init : Machine → Machine
hw_init m = record m {
  device = record m.device {
    regs = record m.device.regs {
      rx_base_low = lower_32_bits m.device.priv.rx_ring_dma;
      rx_base_high = upper_32_bits m.device.priv.rx_ring_dma;
      tx_base_low = lower_32_bits m.device.priv.tx_ring_dma;
      tx_base_high = upper_32_bits m.device.priv.tx_ring_dma;
      rx_tail = m.device.priv.rx_head;
      tx_tail = m.device.priv.tx_head;
      irq_mask = record { rx = false; tx = false };
    };
  };
}
