-- ===== src/NetDevice/Setup/Probe.antt =====
-- net_device/simple_netdev.c: `my_pci_probe` with its labels, and `my_pci_remove`.
use linux_network_lab.Base.{ℕ, Bool, false, Option, none, some, if◌then◌else◌}
use linux_network_lab.NetDevice.Tx.{free_pending_tx}
use linux_network_lab.NetDevice.Irq.{stop_device}
use linux_network_lab.NetDevice.Setup.{
  pci_device, regions, net_device, mmio, napi, irq, registration, Machine, acquire, release, enomem,
  alloc_rx_desc_ring, alloc_tx_desc_ring, BufferAnswers, take_rx_buffer, free_rx_buffer,
  unwind_rx_buffer, unwind_rx_buffers, alloc_rx_loop, alloc_rx_buffers, free_rx_loop,
  free_rx_buffers, free_rx_ring, free_tx_ring, free_desc_rings, hw_init,
}

-- The kernel's answers during `my_pci_probe`: an error code, or `none` for 0.
pub record ProbeAnswers : Type 0 where
  pub enable : Option ℕ
  pub request_regions : Option ℕ
  pub dma_64 : Option ℕ
  pub dma_32 : Option ℕ
  pub alloc_etherdev : Bool
  pub iomap : Bool
  pub rx_ring_at : Option ℕ
  pub tx_ring_at : Option ℕ
  pub buffers : BufferAnswers
  pub request_irq : Option ℕ
  pub register : Option ℕ

abbrev pub mask_irqs : Machine → Machine
mask_irqs m = record m {
  device = record m.device {
    regs = record m.device.regs { irq_mask = record { rx = false; tx = false } };
  };
}

-- The labels of the error path; each falls through to the next.
unfoldable pub err_disable_device : Machine → Machine
err_disable_device m = release pci_device m

unfoldable pub err_release_regions : Machine → Machine
err_release_regions m = err_disable_device (release regions m)

unfoldable pub err_free_netdev : Machine → Machine
err_free_netdev m = err_release_regions (release net_device m)

unfoldable pub err_napi : Machine → Machine
err_napi m = err_free_netdev (release mmio (release napi m))

unfoldable pub err_rx_desc : Machine → Machine
err_rx_desc m = err_napi (free_rx_ring m)

unfoldable pub err_tx_desc : Machine → Machine
err_tx_desc m = err_rx_desc (free_tx_ring m)

unfoldable pub err_rx_buffers : Machine → Machine
err_rx_buffers m = err_tx_desc (free_rx_buffers m)

unfoldable pub err_irq : Machine → Machine
err_irq m = err_rx_buffers (release irq (mask_irqs m))

-- A step that returned an error jumps to its label; otherwise the next step follows.
abbrev pub or_goto :
    (Machine → Machine) → (Machine → Option ℕ × Machine) → Option ℕ × Machine → Option ℕ × Machine
or_goto label next (none, m) = next m
or_goto label next (some e, m) = (some e, label m)

unfoldable pub probe_register : ProbeAnswers → Machine → Option ℕ × Machine
probe_register a m = or_goto err_irq (λ m. (none, acquire registration m)) (a.register, hw_init m)

unfoldable pub probe_irq : ProbeAnswers → Machine → Option ℕ × Machine
probe_irq a m = or_goto err_rx_buffers (λ m. probe_register a (acquire irq m)) (a.request_irq, m)

unfoldable pub probe_buffers : ProbeAnswers → Machine → Option ℕ × Machine
probe_buffers a m = or_goto err_tx_desc (probe_irq a) (alloc_rx_buffers a.buffers m)

unfoldable pub probe_tx_ring : ProbeAnswers → Machine → Option ℕ × Machine
probe_tx_ring a m = or_goto err_rx_desc (probe_buffers a) (alloc_tx_desc_ring a.tx_ring_at m)

unfoldable pub probe_rx_ring : ProbeAnswers → Machine → Option ℕ × Machine
probe_rx_ring a m =
    or_goto err_napi (probe_tx_ring a) (alloc_rx_desc_ring a.rx_ring_at (acquire napi m))

unfoldable pub probe_iomap : ProbeAnswers → Machine → Option ℕ × Machine
probe_iomap a m =
    or_goto err_free_netdev (λ m. probe_rx_ring a (acquire mmio m))
      (if a.iomap then none else some enomem, m)

unfoldable pub probe_netdev : ProbeAnswers → Machine → Option ℕ × Machine
probe_netdev a m =
    or_goto err_release_regions (λ m. probe_iomap a (acquire net_device m))
      (if a.alloc_etherdev then none else some enomem, m)

-- A 32-bit mask is the second choice.
abbrev pub set_dma_mask : ProbeAnswers → Option ℕ
set_dma_mask a = elim a.dma_64 [ none ↦ none | some e ↦ a.dma_32 ]

unfoldable pub probe_dma : ProbeAnswers → Machine → Option ℕ × Machine
probe_dma a m = or_goto err_release_regions (probe_netdev a) (set_dma_mask a, m)

unfoldable pub probe_regions : ProbeAnswers → Machine → Option ℕ × Machine
probe_regions a m =
    or_goto err_disable_device (λ m. probe_dma a (acquire regions m)) (a.request_regions, m)

unfoldable pub pci_probe : ProbeAnswers → Machine → Option ℕ × Machine
pci_probe a m = or_goto (λ m. m) (λ m. probe_regions a (acquire pci_device m)) (a.enable, m)

-- `my_free_pending_tx` within the machine.
abbrev pub drop_pending : Machine → Machine
drop_pending m = record m { device = free_pending_tx m.device }

-- `unregister_netdev` has an interface that is up stopped first.
abbrev pub unregister : Bool → Machine → Machine
unregister up m =
    release registration (record m { device = if up then stop_device m.device else m.device })

-- `my_pci_remove` of a device that was probed, so that its driver data and `mmio` are not NULL; `up`
-- says whether the interface is up.
unfoldable pub pci_remove : Bool → Machine → Machine
pci_remove up m =
    let quiet = release napi (release irq (mask_irqs (unregister up m))) in
    let freed = free_desc_rings (free_rx_buffers (drop_pending quiet)) in
    release pci_device (release regions (release net_device (release mmio freed)))

-- To run the probe, unfold this.
unfoldable pub probe_code : Unit {0}
unfolding take_rx_buffer free_rx_buffer unwind_rx_buffer unwind_rx_buffers alloc_rx_loop
    alloc_rx_buffers alloc_rx_desc_ring alloc_tx_desc_ring free_rx_loop free_rx_buffers free_rx_ring
    free_tx_ring free_desc_rings hw_init err_disable_device err_release_regions err_free_netdev
    err_napi err_rx_desc err_tx_desc err_rx_buffers err_irq probe_register probe_irq probe_buffers
    probe_tx_ring probe_rx_ring probe_iomap probe_netdev probe_dma probe_regions pci_probe
probe_code = tt
