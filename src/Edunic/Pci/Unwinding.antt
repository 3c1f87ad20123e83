-- ===== src/Edunic/Pci/Unwinding.antt =====
-- linux_nic_lab/driver/nic_pci.c: a probe that fails gives back what it got, in reverse.
use mathlib.Core.List.{Perm}
use mathlib.Core.List.Perm
use linux_network_lab.Base.{
  ℕ, ◌-◌, ◌≡◌, refl, Bool, true, false, List, [], ◌∷◌, ◌++◌, Option, none, some, not, ◌||◌, ◌==◌,
  if◌then◌else◌,
}
use linux_network_lab.Edunic.Adapter.{edunic_ring_size, EdunicAdapter}
use linux_network_lab.Edunic.Hw.{edunic_hw_init_rings}
use linux_network_lab.Edunic.Rx.{edunic_alloc_rx_buffers}
use linux_network_lab.Edunic.Pci.{
  Resource, device_enabled, regions, iomap, netdev, tx_descs, tx_bufs, rx_descs, rx_bufs, workqueue,
  napi_added, registered, Pci, ProbeAnswers, register_device, start_emulation, fill_rings,
  set_up_rx, set_up_tx, prepare_netdev, map_device, edunic_probe, edunic_remove,
  edunic_setup_tx_resources, edunic_setup_rx_resources, edunic_free_tx_resources,
  edunic_free_rx_resources, edunic_hw_emulation_uninit, err_free_tx, err_free_netdev,
}

abbrev pub reversed : List Resource → List Resource
reversed [] = []
reversed (r ∷ rs) = reversed rs ++ r ∷ []

-- All that a probe acquires.
abbrev pub everything : List Resource
everything =
    device_enabled ∷ regions ∷ iomap ∷ netdev ∷ tx_descs ∷ tx_bufs ∷ rx_descs ∷ rx_bufs ∷ workqueue
    ∷ napi_added ∷ registered ∷ []

-- Everything is held, and `edunic_remove` gives it all back; or all that was acquired has been given
-- back, the last first.
abbrev pub Unwound : Bool × Pci → Type 0
Unwound (true, s) =
    (s.got ≡ everything) × (s.given ≡ []) × Perm (reversed s.got) (edunic_remove s).given
Unwound (false, s) = s.given ≡ reversed s.got

-- The state of the probe when it has acquired `got`.
abbrev at_stage : EdunicAdapter → List Resource → Pci
at_stage a got = record { adapter = a; got = got; given = [] }

abbrev up_to_iomap : List Resource
up_to_iomap = device_enabled ∷ regions ∷ iomap ∷ []

abbrev up_to_tx : List Resource
up_to_tx = device_enabled ∷ regions ∷ iomap ∷ netdev ∷ tx_descs ∷ tx_bufs ∷ []

abbrev up_to_rx : List Resource
up_to_rx = device_enabled ∷ regions ∷ iomap ∷ netdev ∷ tx_descs ∷ tx_bufs ∷ rx_descs ∷ rx_bufs ∷ []

abbrev up_to_napi : List Resource
up_to_napi =
    device_enabled ∷ regions ∷ iomap ∷ netdev ∷ tx_descs ∷ tx_bufs ∷ rx_descs ∷ rx_bufs ∷ workqueue
    ∷ napi_added ∷ []

if_Unwound : (c : Bool) (r t : Bool × Pci) → Unwound r → Unwound t → Unwound (if c then r else t)
if_Unwound true r t u w = u
if_Unwound false r t u w = w

-- `edunic_remove` keeps the order, but for the network device, which it frees later.
removal : Perm (reversed everything) (
    registered ∷ napi_added ∷ workqueue ∷ rx_bufs ∷ rx_descs ∷ tx_bufs ∷ tx_descs ∷ iomap ∷ regions
    ∷ netdev ∷ device_enabled ∷ [])
removal =
    Perm.append_left
      (registered ∷ napi_added ∷ workqueue ∷ rx_bufs ∷ rx_descs ∷ tx_bufs ∷ tx_descs ∷ [])
      (Perm.trans (Perm.swap iomap netdev (regions ∷ device_enabled ∷ []))
        (Perm.cons iomap (Perm.swap regions netdev (device_enabled ∷ []))))

module _ (ans : ProbeAnswers) where
  register-Unwound : (a : EdunicAdapter) → Unwound (register_device ans (at_stage a up_to_napi))
  unfolding register_device edunic_hw_emulation_uninit edunic_free_rx_resources
      edunic_free_tx_resources edunic_remove
  register-Unwound a = if_Unwound (not ans.registers) _ _ refl (refl, refl, removal)

  emulation-Unwound : (a : EdunicAdapter) → Unwound (start_emulation ans (at_stage a up_to_rx))
  unfolding start_emulation edunic_free_rx_resources edunic_free_tx_resources
  emulation-Unwound a = if_Unwound (not ans.alloc_workqueue) _ _ refl (register-Unwound a)

  rings-Unwound : (a : EdunicAdapter) → Unwound (fill_rings ans (at_stage a up_to_rx))
  unfolding fill_rings edunic_free_rx_resources edunic_free_tx_resources
  rings-Unwound a =
      let (posted, b) =
        edunic_alloc_rx_buffers (edunic_ring_size - 1) ans.refills (edunic_hw_init_rings a) in
      if_Unwound (posted == 0) _ _ refl (emulation-Unwound b)

  rx_branches :
      (coherent : Option ℕ) (bufs : Bool) (a : EdunicAdapter)
      → let r = edunic_setup_rx_resources coherent bufs (at_stage a up_to_tx) in
        Unwound (if not r.0 then (false, err_free_tx r.1) else fill_rings ans r.1)
  unfolding edunic_setup_rx_resources edunic_free_tx_resources
  rx_branches none bufs a = refl
  rx_branches (some dma) false a = refl
  rx_branches (some dma) true a = rings-Unwound _

  tx_branches :
      (coherent : Option ℕ) (bufs : Bool) (a : EdunicAdapter)
      → let r = edunic_setup_tx_resources coherent bufs (at_stage a (up_to_iomap ++ netdev ∷ [])) in
        Unwound (if not r.0 then (false, err_free_netdev r.1) else set_up_rx ans r.1)
  unfolding edunic_setup_tx_resources set_up_rx
  tx_branches none bufs a = refl
  tx_branches (some dma) false a = refl
  tx_branches (some dma) true a = rx_branches ans.rx_coherent ans.rx_kcalloc _

  netdev-Unwound : (a : EdunicAdapter) → Unwound (prepare_netdev ans (at_stage a up_to_iomap))
  unfolding prepare_netdev set_up_tx
  netdev-Unwound a =
      if_Unwound (not ans.allocates) _ _ refl (tx_branches ans.tx_coherent ans.tx_kcalloc _)

  map-Unwound :
      (a : EdunicAdapter) → Unwound (map_device ans (at_stage a (device_enabled ∷ regions ∷ [])))
  unfolding map_device
  map-Unwound a =
      if_Unwound (not ans.maps) _ _ refl
        (if_Unwound (not (ans.mask64 || ans.mask32)) _ _ refl (netdev-Unwound a))

-- Whatever the kernel answers, `edunic_probe` ends with everything held, or it has given back all
-- that it acquired, in reverse.
pub edunic_probe-Unwound :
    (ans : ProbeAnswers) (a : EdunicAdapter)
    → Unwound (edunic_probe ans (record { adapter = a; got = []; given = [] }))
unfolding edunic_probe
edunic_probe-Unwound ans a =
    if_Unwound (not ans.enables) _ _ refl
      (if_Unwound (not ans.requests) _ _ refl (map-Unwound ans a))
