-- ===== src/NetDevice/Setup/Removal.antt =====
-- net_device/simple_netdev.c: `my_pci_remove` after a probe.
use mathlib.Core.List.{Perm, perm_append_comm}
use mathlib.Core.List.Perm
use linux_network_lab.Base.{
  suc, ◌≡◌, refl, sym, ap, subst, ◌∙◌, Bool, true, false, List, [], ◌∷◌, map, length, arith,
}
use linux_network_lab.NetDevice.Device.{Priv, TxDesc}
use linux_network_lab.NetDevice.Tx.{without_skb, free_pending_tx}
use linux_network_lab.NetDevice.Irq.{stop_device}
use linux_network_lab.NetDevice.Setup.{
  Resource, pci_device, regions, net_device, mmio, napi, irq, registration, rx_ring_memory,
  tx_ring_memory, Machine, release, free_rx_buffers, free_rx_ring, free_desc_rings,
}
use linux_network_lab.NetDevice.Setup.Balance.{ring_parts, Balanced, release-Balanced}
use linux_network_lab.NetDevice.Setup.Probe.{mask_irqs, drop_pending, unregister, pci_remove}
use linux_network_lab.NetDevice.Setup.Labels.{
  Settled, Holding, Holding-release, Holding-nothing, before_netdev, with_rings, Rings,
  free_rx_buffers-Holding, free_rx_ring-Holding, free_tx_ring-Holding,
}
use linux_network_lab.NetDevice.Setup.Accounts.{Running}

reorder :
    (m : Machine) (rest rest' : List Resource)
    → Perm rest rest'
    → Balanced m rest
    → Balanced m rest'
unfolding Balanced
reorder m rest rest' p b =
    Perm.trans b
      (Perm.append_left m.released (Perm.append_left (ring_parts m.device.priv.rx_ring) p))

length-map : (f : TxDesc → TxDesc) (xs : List TxDesc) → length (map f xs) ≡ length xs
length-map f [] = refl
length-map f (x ∷ xs) = ap suc (length-map f xs)

-- What stands in the machine once `my_pci_remove` has taken NAPI away.
abbrev left_for_rings : Priv → List Resource
left_for_rings p =
    rx_ring_memory p.rx_ring_dma ∷ tx_ring_memory p.tx_ring_dma ∷ mmio ∷ net_device ∷ before_netdev

napi_first : (p : Priv) → Perm (with_rings p) (napi ∷ left_for_rings p)
napi_first p =
    let t = tx_ring_memory p.tx_ring_dma in
    let r = rx_ring_memory p.rx_ring_dma in
    let rest = mmio ∷ net_device ∷ before_netdev in
    Perm.append_right rest (
      Perm.trans (perm_append_comm (t ∷ r ∷ []) (napi ∷ []))
        (Perm.cons napi (perm_append_comm (t ∷ []) (r ∷ []))))

free_rx_ring_tx :
    (m : Machine)
    → ((free_rx_ring m).device.priv.tx_ring ≡ m.device.priv.tx_ring)
      × ((free_rx_ring m).device.priv.tx_ring_dma ≡ m.device.priv.tx_ring_dma)
unfolding free_rx_ring
free_rx_ring_tx m = ground arith

free_desc_rings-Holding :
    (m : Machine) (rest : List Resource)
    → Rings m
    → Holding m
        (rx_ring_memory m.device.priv.rx_ring_dma ∷ tx_ring_memory m.device.priv.tx_ring_dma ∷ rest)
    → Holding (free_desc_rings m) rest
unfolding free_desc_rings
free_desc_rings-Holding m rest g h =
    let same = free_rx_ring_tx m in
    let h' =
      free_rx_ring-Holding m (tx_ring_memory m.device.priv.tx_ring_dma ∷ rest) g.rx_whole h in
    free_tx_ring-Holding (free_rx_ring m) rest (ap length same.0 ∙ g.tx_whole)
      (subst (λ a. Holding (free_rx_ring m) (tx_ring_memory a ∷ rest)) (sym same.1) h')

-- The machine as `my_pci_remove` finds it when it frees memory.
quiet-Rings : (m : Machine) → Rings m → Rings (drop_pending m)
unfolding free_pending_tx
quiet-Rings m g = record {
  rx_whole = g.rx_whole;
  tx_whole = length-map without_skb m.device.priv.tx_ring ∙ g.tx_whole;
}

memory-Settled :
    (m : Machine)
    → Rings m
    → Balanced m (left_for_rings m.device.priv)
    → Settled (
        release pci_device (
          release regions
            (release net_device (release mmio (free_desc_rings (free_rx_buffers m))))))
memory-Settled m g b =
    let p = m.device.priv in
    let m' = free_rx_buffers m in
    let p' = m'.device.priv in
    let freed = free_desc_rings m' in
    let below = net_device ∷ before_netdev in
    let (ring, h) = free_rx_buffers-Holding m (left_for_rings p) g.rx_whole b in
    let same : left_for_rings p' ≡ left_for_rings p =
      ap (λ a. rx_ring_memory a ∷ tx_ring_memory p'.tx_ring_dma ∷ mmio ∷ below) ring.same_rx_dma
      ∙ ap (λ a. rx_ring_memory p.rx_ring_dma ∷ tx_ring_memory a ∷ mmio ∷ below) ring.same_tx_dma in
    let h1 =
      free_desc_rings-Holding m' (mmio ∷ below)
        (record { rx_whole = ring.whole; tx_whole = ap length ring.same_tx ∙ g.tx_whole })
        (subst (λ rest. Holding m' rest) (sym same) h) in
    let h2 = Holding-release mmio freed below h1 in
    let h3 = Holding-release net_device (release mmio freed) before_netdev h2 in
    let m4 = release regions (release net_device (release mmio freed)) in
    let h4 =
      Holding-release regions (release net_device (release mmio freed)) (pci_device ∷ []) h3 in
    Holding-nothing (release pci_device m4) (Holding-release pci_device m4 [] h4)

-- The machine once the interface is out of the network subsystem.
unregistered-Settled :
    (m : Machine)
    → Rings m
    → Balanced m (irq ∷ with_rings m.device.priv)
    → Settled (
        release pci_device (
          release regions (
            release net_device (
              release mmio (
                free_desc_rings
                  (free_rx_buffers (drop_pending (release napi (release irq (mask_irqs m))))))))))
unfolding Balanced free_pending_tx
unregistered-Settled m g b =
    let p = m.device.priv in
    let masked = mask_irqs m in
    let without_irq = release irq masked in
    let b1 = release-Balanced irq masked (with_rings p) b in
    let b2 = reorder without_irq (with_rings p) (napi ∷ left_for_rings p) (napi_first p) b1 in
    memory-Settled (drop_pending (release napi without_irq))
      (quiet-Rings (release napi without_irq)
        (record { rx_whole = g.rx_whole; tx_whole = g.tx_whole }))
      (release-Balanced napi without_irq (left_for_rings p) b2)

-- `my_pci_remove` of a device that was probed gives back everything that the probe took, each
-- resource once, whether the interface is up or not.
pub pci_remove-Settled : (up : Bool) (m : Machine) → Running m → Settled (pci_remove up m)
unfolding pci_remove Balanced stop_device
pci_remove-Settled true m r =
    unregistered-Settled (unregister true m)
      (record { rx_whole = r.rings.rx_whole; tx_whole = r.rings.tx_whole })
      (release-Balanced registration m (irq ∷ with_rings m.device.priv) r.balanced)
pci_remove-Settled false m r =
    unregistered-Settled (unregister false m)
      (record { rx_whole = r.rings.rx_whole; tx_whole = r.rings.tx_whole })
      (release-Balanced registration m (irq ∷ with_rings m.device.priv) r.balanced)
