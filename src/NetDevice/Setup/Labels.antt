-- ===== src/NetDevice/Setup/Labels.antt =====
-- net_device/simple_netdev.c: the labels of `my_pci_probe` give back what was taken before the jump.
use mathlib.Core.List.{Perm}
use mathlib.Core.List.Perm
use linux_network_lab.Base.{
  ◌≡◌, refl, sym, ap, subst, ◌∙◌, List, [], ◌∷◌, ◌++◌, append-nil, arith, length, not_null,
}
use linux_network_lab.NetDevice.Device.{rx_ring_size, tx_ring_size, Priv}
use linux_network_lab.NetDevice.Setup.{
  Resource, pci_device, regions, net_device, mmio, napi, irq, rx_ring_memory, tx_ring_memory,
  Machine, release, free_rx_ring, free_tx_ring, free_rx_buffers, free_rx_loop,
}
use linux_network_lab.NetDevice.Setup.Balance.{ring_parts, Balanced, release-Balanced}
use linux_network_lab.NetDevice.Setup.Unwinding.{none_held, Ring, free_loop-Ring}
use linux_network_lab.NetDevice.Setup.Probe.{
  mask_irqs, err_disable_device, err_release_regions, err_free_netdev, err_napi, err_rx_desc,
  err_tx_desc, err_rx_buffers, err_irq,
}

-- All that was taken was given back, each once.
unfoldable pub Settled : Machine → Type 0
Settled m = Perm m.acquired m.released

-- Beside the ring, which holds no buffer, the machine holds `rest`.
pub record Holding (m : Machine) (rest : List Resource) : Type 0 where
  pub balanced : Balanced m rest
  pub no_buffers : ring_parts m.device.priv.rx_ring ≡ []

abbrev pub before_netdev : List Resource
before_netdev = regions ∷ pci_device ∷ []

abbrev pub before_rings : List Resource
before_rings = napi ∷ mmio ∷ net_device ∷ before_netdev

abbrev pub with_rings : Priv → List Resource
with_rings p = tx_ring_memory p.tx_ring_dma ∷ rx_ring_memory p.rx_ring_dma ∷ before_rings

pub same_rings :
    (p p' : Priv)
    → p'.rx_ring_dma ≡ p.rx_ring_dma
    → p'.tx_ring_dma ≡ p.tx_ring_dma
    → with_rings p' ≡ with_rings p
same_rings p p' rx tx =
    ap (λ a. tx_ring_memory a ∷ rx_ring_memory p'.rx_ring_dma ∷ before_rings) tx
    ∙ ap (λ a. tx_ring_memory p.tx_ring_dma ∷ rx_ring_memory a ∷ before_rings) rx

pub Holding-release :
    (r : Resource) (m : Machine) (rest : List Resource)
    → Holding m (r ∷ rest)
    → Holding (release r m) rest
Holding-release r m rest h = record {
  balanced = release-Balanced r m rest h.balanced;
  no_buffers = h.no_buffers;
}

pub Holding-nothing : (m : Machine) → Holding m [] → Settled m
unfolding Settled Balanced
Holding-nothing m h = Perm.trans h.balanced (rw (h.no_buffers, append-nil m.released) (Perm.refl _))

pub err_disable_device-Settled :
    (m : Machine) → Holding m (pci_device ∷ []) → Settled (err_disable_device m)
unfolding err_disable_device
err_disable_device-Settled m h =
    Holding-nothing (release pci_device m) (Holding-release pci_device m [] h)

pub err_release_regions-Settled :
    (m : Machine) → Holding m before_netdev → Settled (err_release_regions m)
unfolding err_release_regions
err_release_regions-Settled m h =
    err_disable_device-Settled (release regions m) (Holding-release regions m (pci_device ∷ []) h)

pub err_free_netdev-Settled :
    (m : Machine) → Holding m (net_device ∷ before_netdev) → Settled (err_free_netdev m)
unfolding err_free_netdev
err_free_netdev-Settled m h =
    err_release_regions-Settled (release net_device m)
      (Holding-release net_device m before_netdev h)

pub err_napi-Settled : (m : Machine) → Holding m before_rings → Settled (err_napi m)
unfolding err_napi
err_napi-Settled m h = err_free_netdev-Settled (release mmio (release napi m)) (
    Holding-release mmio (release napi m) (net_device ∷ before_netdev)
      (Holding-release napi m (mmio ∷ net_device ∷ before_netdev) h))

pub free_rx_ring-Holding :
    (m : Machine) (rest : List Resource)
    → length m.device.priv.rx_ring ≡ rx_ring_size
    → Holding m (rx_ring_memory m.device.priv.rx_ring_dma ∷ rest)
    → Holding (free_rx_ring m) rest
unfolding free_rx_ring Balanced ring_parts
free_rx_ring-Holding m rest w h = rw (not_null m.device.priv.rx_ring w) (record {
  balanced =
      subst
        (λ p.
          Perm m.acquired
            ((m.released ++ rx_ring_memory m.device.priv.rx_ring_dma ∷ []) ++ (p ++ rest)))
        h.no_buffers
        (release-Balanced (rx_ring_memory m.device.priv.rx_ring_dma) m rest h.balanced);
  no_buffers = refl;
})

pub free_tx_ring-Holding :
    (m : Machine) (rest : List Resource)
    → length m.device.priv.tx_ring ≡ tx_ring_size
    → Holding m (tx_ring_memory m.device.priv.tx_ring_dma ∷ rest)
    → Holding (free_tx_ring m) rest
unfolding free_tx_ring Balanced
free_tx_ring-Holding m rest w h =
    let h' = Holding-release (tx_ring_memory m.device.priv.tx_ring_dma) m rest h in
    rw (not_null m.device.priv.tx_ring w)
      (record { balanced = h'.balanced; no_buffers = h'.no_buffers })

free_tx_ring_same : (m : Machine) → (free_tx_ring m).device.priv.rx_ring ≡ m.device.priv.rx_ring
unfolding free_tx_ring
free_tx_ring_same m = ground arith

free_tx_ring_same_dma :
    (m : Machine) → (free_tx_ring m).device.priv.rx_ring_dma ≡ m.device.priv.rx_ring_dma
unfolding free_tx_ring
free_tx_ring_same_dma m = ground arith

pub err_rx_desc-Settled :
    (m : Machine)
    → length m.device.priv.rx_ring ≡ rx_ring_size
    → Holding m (rx_ring_memory m.device.priv.rx_ring_dma ∷ before_rings)
    → Settled (err_rx_desc m)
unfolding err_rx_desc
err_rx_desc-Settled m w h =
    err_napi-Settled (free_rx_ring m) (free_rx_ring-Holding m before_rings w h)

-- Both rings are there.
pub record Rings (m : Machine) : Type 0 where
  pub rx_whole : length m.device.priv.rx_ring ≡ rx_ring_size
  pub tx_whole : length m.device.priv.tx_ring ≡ tx_ring_size

pub err_tx_desc-Settled :
    (m : Machine) → Rings m → Holding m (with_rings m.device.priv) → Settled (err_tx_desc m)
unfolding err_tx_desc
err_tx_desc-Settled m g h =
    let p = m.device.priv in
    err_rx_desc-Settled (free_tx_ring m) (ap length (free_tx_ring_same m) ∙ g.rx_whole) (
      subst (λ a. Holding (free_tx_ring m) (rx_ring_memory a ∷ before_rings))
        (sym (free_tx_ring_same_dma m))
        (free_tx_ring-Holding m (rx_ring_memory p.rx_ring_dma ∷ before_rings) g.tx_whole h))

-- `my_free_rx_buffers` leaves the rest as it is.
pub free_rx_buffers-Holding :
    (m : Machine) (rest : List Resource)
    → length m.device.priv.rx_ring ≡ rx_ring_size
    → Balanced m rest
    → let m' = free_rx_buffers m in Ring m m' rest × Holding m' rest
unfolding free_rx_buffers
free_rx_buffers-Holding m rest w b =
    let start : Ring m m rest = record {
      whole = w;
      balanced = b;
      same_tx = refl;
      same_rx_dma = refl;
      same_tx_dma = refl;
    } in
    let r =
      free_loop-Ring rx_ring_size 0 m m rest refl start
        (record { cleared = λ j lo hi. absurd (omega (arith, hi)) }) in
    let m' = free_rx_loop rx_ring_size 0 m in
    rw (not_null m.device.priv.rx_ring w) (
      r.0,
      record {
        balanced = r.0.balanced;
        no_buffers = none_held m'.device.priv.rx_ring (rw r.0.whole r.1);
      },
    )

pub err_rx_buffers-Settled :
    (m : Machine) → Rings m → Balanced m (with_rings m.device.priv) → Settled (err_rx_buffers m)
unfolding err_rx_buffers
err_rx_buffers-Settled m g b =
    let m' = free_rx_buffers m in
    let r = free_rx_buffers-Holding m (with_rings m.device.priv) g.rx_whole b in
    err_tx_desc-Settled m'
      (record { rx_whole = r.0.whole; tx_whole = ap length r.0.same_tx ∙ g.tx_whole })
      (subst (λ rest. Holding m' rest)
        (sym (same_rings m.device.priv m'.device.priv r.0.same_rx_dma r.0.same_tx_dma)) r.1)

pub err_irq-Settled :
    (m : Machine) → Rings m → Balanced m (irq ∷ with_rings m.device.priv) → Settled (err_irq m)
unfolding err_irq Balanced
err_irq-Settled m g b =
    err_rx_buffers-Settled (release irq (mask_irqs m))
      (record { rx_whole = g.rx_whole; tx_whole = g.tx_whole })
      (release-Balanced irq (mask_irqs m) (with_rings m.device.priv) b)
