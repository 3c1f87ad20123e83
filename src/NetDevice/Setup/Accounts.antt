-- ===== src/NetDevice/Setup/Accounts.antt =====
-- net_device/simple_netdev.c: what `my_pci_probe` takes and gives back, and `my_pci_remove` after it.
use mathlib.Core.List.{Perm}
use mathlib.Core.List.Perm
use linux_network_lab.Base.{
  ℕ, zero, suc, ◌≡◌, refl, sym, ap, subst, ◌∙◌, ◌⊎◌, inl, inr, List, [], ◌∷◌, ◌++◌, Option, none,
  some, false, arith, length, replicate, length-replicate, if◌then◌else◌,
}
use mathlib.Core.Option.{none-ne-some}
use linux_network_lab.NetDevice.Device.{rx_ring_size, zero_rx_desc, rx_desc}
use linux_network_lab.NetDevice.Setup.{
  Resource, pci_device, regions, net_device, mmio, napi, irq, registration, rx_ring_memory,
  tx_ring_memory, Machine, acquire, enomem, alloc_rx_desc_ring, alloc_tx_desc_ring,
  alloc_rx_buffers, hw_init,
}
use linux_network_lab.NetDevice.Setup.Balance.{ring_parts, Balanced, acquire-Balanced}
use linux_network_lab.NetDevice.Rx.Ring.{Waits}
use linux_network_lab.NetDevice.Setup.Fresh.{alloc_rx_buffers-Waits}
use linux_network_lab.NetDevice.Setup.Unwinding.{Cleared, Present, none_held, Ring}
use linux_network_lab.NetDevice.Setup.Allocation.{alloc_loop-Ring}
use linux_network_lab.NetDevice.Setup.Probe.{
  ProbeAnswers, or_goto, err_disable_device, err_release_regions, err_free_netdev, err_napi,
  err_rx_desc, err_tx_desc, err_rx_buffers, err_irq, probe_register, probe_irq, probe_buffers,
  probe_tx_ring, probe_rx_ring, probe_iomap, probe_netdev, set_dma_mask, probe_dma, probe_regions,
  pci_probe,
}
use linux_network_lab.NetDevice.Setup.Labels.{
  Settled, Holding, before_netdev, before_rings, with_rings, same_rings, Rings,
  err_disable_device-Settled, err_release_regions-Settled, err_free_netdev-Settled,
  err_napi-Settled, err_rx_desc-Settled, err_tx_desc-Settled, err_rx_buffers-Settled,
  err_irq-Settled,
}

-- The device is set up: beside its receive buffers it holds exactly what `my_pci_remove` gives back.
pub record Running (m : Machine) : Type 0 where
  pub rings : Rings m
  pub balanced : Balanced m (registration ∷ irq ∷ with_rings m.device.priv)

-- Beyond that each receive descriptor has a buffer and belongs to the NIC, no packet waits, the
-- NIC's tail register is at the head, and the interrupts are masked until `my_open`.
pub record SetUp (m : Machine) : Type 0 where
  pub running : Running m
  pub buffers : Present m.device.priv.rx_ring rx_ring_size
  pub waits : Waits m.device.priv []
  pub rx_tail : m.device.regs.rx_tail ≡ m.device.priv.rx_head
  pub masked : m.device.regs.irq_mask ≡ record { rx = false; tx = false }

-- A probe ends in a device that is set up, or in an error with everything given back.
unfoldable pub Probed : Option ℕ × Machine → Type 0
Probed (none, m) = SetUp m
Probed (some e, m) = Settled m

Holding-acquire :
    (r : Resource) (m : Machine) (rest : List Resource)
    → Holding m rest
    → Holding (acquire r m) (r ∷ rest)
Holding-acquire r m rest h = record {
  balanced = acquire-Balanced r m rest h.balanced;
  no_buffers = h.no_buffers;
}

-- A step that may fail.
or_goto-Probed :
    (label : Machine → Machine) (next : Machine → Option ℕ × Machine) (r : Option ℕ) (m : Machine)
    → Settled (label m)
    → Probed (next m)
    → Probed (or_goto label next (r, m))
unfolding Probed
or_goto-Probed label next none m failed went_on = went_on
or_goto-Probed label next (some e) m failed went_on = failed

probe_register-Probed :
    (a : ProbeAnswers) (m : Machine)
    → Rings m
    → Present m.device.priv.rx_ring rx_ring_size
    → Waits m.device.priv []
    → Balanced m (irq ∷ with_rings m.device.priv)
    → Probed (probe_register a m)
unfolding probe_register hw_init Balanced Probed
probe_register-Probed a m g p w b =
    or_goto-Probed err_irq (λ m. (none, acquire registration m)) a.register (hw_init m)
      (err_irq-Settled (hw_init m) (record { rx_whole = g.rx_whole; tx_whole = g.tx_whole }) b)
      (record {
        running = record {
          rings = record { rx_whole = g.rx_whole; tx_whole = g.tx_whole };
          balanced = acquire-Balanced registration m (irq ∷ with_rings m.device.priv) b;
        };
        buffers = p;
        waits = w;
        rx_tail = refl;
        masked = refl;
      })

probe_irq-Probed :
    (a : ProbeAnswers) (m : Machine)
    → Rings m
    → Present m.device.priv.rx_ring rx_ring_size
    → Waits m.device.priv []
    → Balanced m (with_rings m.device.priv)
    → Probed (probe_irq a m)
unfolding probe_irq
probe_irq-Probed a m g p w b =
    or_goto-Probed err_rx_buffers (λ m. probe_register a (acquire irq m)) a.request_irq m
      (err_rx_buffers-Settled m g b)
      (probe_register-Probed a (acquire irq m)
        (record { rx_whole = g.rx_whole; tx_whole = g.tx_whole }) p w
        (acquire-Balanced irq m (with_rings m.device.priv) b))

-- The buffers have a result of their own.
buffers_goto-Probed :
    (a : ProbeAnswers) (r : Option ℕ) (m : Machine)
    → Rings m
    → Balanced m (with_rings m.device.priv)
    → ((r ≡ none) × Present m.device.priv.rx_ring rx_ring_size)
      ⊎ ((r ≡ some enomem) × Cleared m.device.priv.rx_ring 0 rx_ring_size)
    → (r ≡ none → Waits m.device.priv [])
    → Probed (or_goto err_tx_desc (probe_irq a) (r, m))
unfolding Probed
buffers_goto-Probed a none m g b (inl (ok, p)) w = probe_irq-Probed a m g p (w refl) b
buffers_goto-Probed a none m g b (inr (failed, c)) w = absurd (none-ne-some enomem failed)
buffers_goto-Probed a (some e) m g b (inl (ok, p)) w = absurd (none-ne-some e (sym ok))
buffers_goto-Probed a (some e) m g b (inr (failed, c)) w =
    err_tx_desc-Settled m g
      (record { balanced = b; no_buffers = none_held m.device.priv.rx_ring (rw g.rx_whole c) })

probe_buffers-Probed :
    (a : ProbeAnswers) (m : Machine)
    → Rings m
    → m.device.priv.rx_head ≡ 0
    → Cleared m.device.priv.rx_ring 0 rx_ring_size
    → Balanced m (with_rings m.device.priv)
    → Probed (probe_buffers a m)
unfolding probe_buffers alloc_rx_buffers
probe_buffers-Probed a m g z c b =
    let start : Ring m m (with_rings m.device.priv) = record {
      whole = g.rx_whole;
      balanced = b;
      same_tx = refl;
      same_rx_dma = refl;
      same_tx_dma = refl;
    } in
    let (r, m') = alloc_rx_buffers a.buffers m in
    let (ring, end) =
      alloc_loop-Ring a.buffers rx_ring_size 0 m m (with_rings m.device.priv) refl start
        (record { present = λ j hj. absurd (omega (arith, hj)) }) c in
    buffers_goto-Probed a r m'
      (record { rx_whole = ring.whole; tx_whole = ap length ring.same_tx ∙ g.tx_whole })
      (subst (λ rest. Balanced m' rest)
        (sym (same_rings m.device.priv m'.device.priv ring.same_rx_dma ring.same_tx_dma))
        ring.balanced)
      end (alloc_rx_buffers-Waits a.buffers m g.rx_whole z)

get_or-zeros : (n i : ℕ) → rx_desc (replicate n zero_rx_desc) i ≡ zero_rx_desc
get_or-zeros zero i = refl
get_or-zeros (suc n) zero = refl
get_or-zeros (suc n) (suc i) = get_or-zeros n i

zeros-Cleared : (n : ℕ) → Cleared (replicate n zero_rx_desc) 0 n
zeros-Cleared n = record { cleared = λ j lo hi. ap (λ t. t.buf) (get_or-zeros n j) }

no_parts_zeros : ring_parts (replicate rx_ring_size zero_rx_desc) ≡ []
no_parts_zeros =
    none_held (replicate rx_ring_size zero_rx_desc)
      (rw (length-replicate rx_ring_size zero_rx_desc) (zeros-Cleared rx_ring_size))

tx_ring-Probed :
    (a : ProbeAnswers) (o : Option ℕ) (m : Machine)
    → length m.device.priv.rx_ring ≡ rx_ring_size
    → m.device.priv.rx_head ≡ 0
    → Cleared m.device.priv.rx_ring 0 rx_ring_size
    → Holding m (rx_ring_memory m.device.priv.rx_ring_dma ∷ before_rings)
    → Probed (or_goto err_rx_desc (probe_buffers a) (alloc_tx_desc_ring o m))
unfolding alloc_tx_desc_ring Balanced Probed
tx_ring-Probed a none m w z c h = err_rx_desc-Settled m w h
tx_ring-Probed a (some dma) m w z c h =
    probe_buffers-Probed a (alloc_tx_desc_ring (some dma) m).1
      (record { rx_whole = w; tx_whole = refl }) z c
      (acquire-Balanced (tx_ring_memory dma) m
        (rx_ring_memory m.device.priv.rx_ring_dma ∷ before_rings) h.balanced)

rx_ring-Probed :
    (a : ProbeAnswers) (o : Option ℕ) (m : Machine)
    → Holding m before_rings
    → Probed (or_goto err_napi (probe_tx_ring a) (alloc_rx_desc_ring o m))
unfolding alloc_rx_desc_ring probe_tx_ring Balanced Probed
rx_ring-Probed a none m h = err_napi-Settled m h
rx_ring-Probed a (some dma) m h =
    let m' = (alloc_rx_desc_ring (some dma) m).1 in
    tx_ring-Probed a a.tx_ring_at m' refl refl (zeros-Cleared rx_ring_size) (record {
      balanced =
          subst (λ p. Perm m'.acquired (m'.released ++ (p ++ (rx_ring_memory dma ∷ before_rings))))
            (h.no_buffers ∙ sym no_parts_zeros)
            (acquire-Balanced (rx_ring_memory dma) m before_rings h.balanced);
      no_buffers = no_parts_zeros;
    })

netdev-Probed :
    (a : ProbeAnswers) (m : Machine) → Holding m before_netdev → Probed (probe_netdev a m)
unfolding probe_netdev probe_iomap probe_rx_ring
netdev-Probed a m h =
    let h1 = Holding-acquire net_device m before_netdev h in
    let m1 = acquire net_device m in
    let h2 = Holding-acquire mmio m1 (net_device ∷ before_netdev) h1 in
    let m2 = acquire mmio m1 in
    or_goto-Probed err_release_regions (λ m. probe_iomap a (acquire net_device m))
      (if a.alloc_etherdev then none else some enomem) m (err_release_regions-Settled m h)
      (or_goto-Probed err_free_netdev (λ m. probe_rx_ring a (acquire mmio m))
        (if a.iomap then none else some enomem) m1 (err_free_netdev-Settled m1 h1)
        (rx_ring-Probed a a.rx_ring_at (acquire napi m2)
          (Holding-acquire napi m2 (mmio ∷ net_device ∷ before_netdev) h2)))

-- `my_pci_probe`, whichever of its steps fails, either returns an error with everything that it
-- took given back, each resource once, or sets the device up: it then holds exactly what
-- `my_pci_remove` gives back, each receive descriptor has a buffer and belongs to the NIC, no packet
-- waits, the NIC's tail register is at the head, and the interrupts are masked. Before it, nothing
-- is taken, and the ring is NULL.
pub pci_probe-Probed :
    (a : ProbeAnswers) (m : Machine)
    → m.acquired ≡ []
    → m.released ≡ []
    → m.device.priv.rx_ring ≡ []
    → Probed (pci_probe a m)
unfolding pci_probe probe_regions probe_dma Probed Settled Balanced ring_parts
pci_probe-Probed a m ea er e =
    let en : ring_parts m.device.priv.rx_ring ≡ [] = ap ring_parts e in
    let h0 : Holding m [] = record { balanced = rw (ea, er, en) (Perm.refl []); no_buffers = en } in
    let h1 = Holding-acquire pci_device m [] h0 in
    let m1 = acquire pci_device m in
    let h2 = Holding-acquire regions m1 (pci_device ∷ []) h1 in
    let m2 = acquire regions m1 in
    or_goto-Probed (λ m. m) (λ m. probe_regions a (acquire pci_device m)) a.enable m
      (rw (ea, er) (Perm.refl []))
      (or_goto-Probed err_disable_device (λ m. probe_dma a (acquire regions m)) a.request_regions m1
        (err_disable_device-Settled m1 h1)
        (or_goto-Probed err_release_regions (probe_netdev a) (set_dma_mask a) m2
          (err_release_regions-Settled m2 h2) (netdev-Probed a m2 h2)))
