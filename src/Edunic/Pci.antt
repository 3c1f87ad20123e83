-- ===== src/Edunic/Pci.antt =====
-- linux_nic_lab/driver/nic_pci.c, and the set-up of the rings in nic_tx.c and nic_rx.c: probe and
-- remove, with what they acquire and give back.
pub mod Unwinding
use linux_network_lab.Base.{
  ℕ, zero, suc, ◌+◌, ◌-◌, Bool, true, false, not, ◌||◌, List, [], ◌∷◌, ◌++◌, Option, none, some,
  ◌==◌, if◌then◌else◌,
}
use linux_network_lab.Edunic.Adapter.{
  MacAddress, edunic_ring_size, Skb, EdunicTxDesc, EdunicRxDesc, EdunicBuf, zero_buf, EdunicTxRing,
  EdunicRxRing, EdunicStats, no_causes, EdunicRegs, EdunicAdapter,
}
use linux_network_lab.Edunic.Tx.{skb_list}
use linux_network_lab.Edunic.Rx.{Refill, edunic_alloc_rx_buffers}
use linux_network_lab.Edunic.Hw.{edunic_hw_init_rings}
use linux_network_lab.Edunic.Hw.Mac.{edunic_hw_set_mac}

-- What `edunic_probe` acquires, each by a call that some other call undoes.
pub data Resource : Type 0 where
  device_enabled regions iomap netdev : Resource
  tx_descs tx_bufs rx_descs rx_bufs : Resource
  workqueue napi_added registered : Resource

-- The adapter, what was acquired, and what was given back, in this order.
pub record Pci : Type 0 where
  pub adapter : EdunicAdapter
  pub got : List Resource
  pub given : List Resource

abbrev pub get : Resource → Pci → Pci
get r s = record s { got = s.got ++ r ∷ [] }

abbrev pub give : Resource → Pci → Pci
give r s = record s { given = s.given ++ r ∷ [] }

-- What the kernel's functions answer: whether they succeed, and the addresses of the rings.
pub record ProbeAnswers : Type 0 where
  pub enables : Bool
  pub requests : Bool
  pub maps : Bool
  pub mask64 : Bool
  pub mask32 : Bool
  pub allocates : Bool
  pub address : MacAddress
  pub tx_coherent : Option ℕ
  pub tx_kcalloc : Bool
  pub rx_coherent : Option ℕ
  pub rx_kcalloc : Bool
  pub refills : List Refill
  pub alloc_workqueue : Bool
  pub registers : Bool

-- Coherent memory comes zeroed, as that of `kcalloc`.
abbrev pub fresh_tx_ring : ℕ → EdunicTxRing
fresh_tx_ring dma = record {
  desc = λ i. record { buffer_addr = 0; length = 0; cmd = 0; finished = false };
  dma = dma;
  buf = λ i. zero_buf;
  next_to_use = 0;
  next_to_clean = 0;
}

abbrev pub fresh_rx_ring : ℕ → EdunicRxRing
fresh_rx_ring dma = record {
  desc = λ i. record {
    buffer_addr = 0;
    length = 0;
    finished = false;
    eop = false;
    csum_valid = false;
    rxe = false;
  };
  dma = dma;
  buf = λ i. zero_buf;
  next_to_use = 0;
  next_to_clean = 0;
}

unfoldable pub edunic_setup_tx_resources : Option ℕ → Bool → Pci → Bool × Pci
edunic_setup_tx_resources none bufs s = (false, s)
edunic_setup_tx_resources (some dma) bufs s =
    if not bufs then (false, give tx_descs (get tx_descs s)) else (
      true,
      get tx_bufs
          (get tx_descs (record s { adapter = record s.adapter { tx_ring = fresh_tx_ring dma } })),
    )

unfoldable pub edunic_setup_rx_resources : Option ℕ → Bool → Pci → Bool × Pci
edunic_setup_rx_resources none bufs s = (false, s)
edunic_setup_rx_resources (some dma) bufs s =
    if not bufs then (false, give rx_descs (get rx_descs s)) else (
      true,
      get rx_bufs
          (get rx_descs (record s { adapter = record s.adapter { rx_ring = fresh_rx_ring dma } })),
    )

-- The loop over the ring frees each skb and leaves NULL, from place `i` on.
unfoldable pub free_bufs : ℕ → ℕ → (ℕ → EdunicBuf) → List Skb
free_bufs zero i buf = []
free_bufs (suc rounds) i buf = skb_list (buf i).skb ++ free_bufs rounds (i + 1) buf

abbrev pub without_skb : EdunicBuf → EdunicBuf
without_skb b = record b { skb = none }

-- The rings are there whenever these two are called.
unfoldable pub edunic_free_tx_resources : Pci → Pci
edunic_free_tx_resources s =
    let a = s.adapter in
    give tx_descs (
      give tx_bufs (record s {
        adapter = record a {
          tx_ring = record a.tx_ring { buf = λ i. without_skb (a.tx_ring.buf i) };
          freed = a.freed ++ free_bufs edunic_ring_size 0 a.tx_ring.buf;
        };
      }))

unfoldable pub edunic_free_rx_resources : Pci → Pci
edunic_free_rx_resources s =
    let a = s.adapter in
    give rx_descs (
      give rx_bufs (record s {
        adapter = record a {
          rx_ring = record a.rx_ring { buf = λ i. without_skb (a.rx_ring.buf i) };
          freed = a.freed ++ free_bufs edunic_ring_size 0 a.rx_ring.buf;
        };
      }))

-- The wait for the reset only warns when it ends without an answer.
unfoldable pub edunic_hw_reset : EdunicAdapter → EdunicAdapter
edunic_hw_reset a = record a {
  link_up = false;
  regs = record a.regs { rst = true; txen = false; rxen = false };
}

unfoldable pub edunic_hw_emulation_uninit : Pci → Pci
edunic_hw_emulation_uninit s =
    give workqueue
      (record s { adapter = record s.adapter { timer_armed = false; work_queued = false } })

-- The labels of `edunic_probe`, each falling through to the next.
abbrev pub err_disable_device : Pci → Pci
err_disable_device s = give device_enabled s

abbrev pub err_release_regions : Pci → Pci
err_release_regions s = err_disable_device (give regions s)

abbrev pub err_iounmap : Pci → Pci
err_iounmap s = err_release_regions (give iomap s)

abbrev pub err_free_netdev : Pci → Pci
err_free_netdev s = err_iounmap (give netdev s)

abbrev pub err_free_tx : Pci → Pci
err_free_tx s = err_free_netdev (edunic_free_tx_resources s)

abbrev pub err_free_rx : Pci → Pci
err_free_rx s = err_free_tx (edunic_free_rx_resources s)

abbrev pub err_napi_del : Pci → Pci
err_napi_del s = err_free_rx (edunic_hw_emulation_uninit (give napi_added s))

-- `edunic_probe` from its end backwards.
unfoldable pub register_device : ProbeAnswers → Pci → Bool × Pci
register_device ans s =
    if not ans.registers then (false, err_napi_del s) else (true, get registered s)

unfoldable pub start_emulation : ProbeAnswers → Pci → Bool × Pci
start_emulation ans s =
    if not ans.alloc_workqueue
    then (false, err_free_rx s)
    else register_device ans (get napi_added (get workqueue s))

unfoldable pub fill_rings : ProbeAnswers → Pci → Bool × Pci
fill_rings ans s =
    let (posted, a) =
      edunic_alloc_rx_buffers (edunic_ring_size - 1) ans.refills (edunic_hw_init_rings s.adapter) in
    if posted == 0
    then (false, err_free_rx (record s { adapter = a }))
    else start_emulation ans (record s { adapter = a })

unfoldable pub set_up_rx : ProbeAnswers → Pci → Bool × Pci
set_up_rx ans s =
    let (ok, t) = edunic_setup_rx_resources ans.rx_coherent ans.rx_kcalloc s in
    if not ok then (false, err_free_tx t) else fill_rings ans t

unfoldable pub set_up_tx : ProbeAnswers → Pci → Bool × Pci
set_up_tx ans s =
    let (ok, t) = edunic_setup_tx_resources ans.tx_coherent ans.tx_kcalloc s in
    if not ok then (false, err_free_netdev t) else set_up_rx ans t

-- The carrier is off, the chip is reset, and its address set.
unfoldable pub prepare_netdev : ProbeAnswers → Pci → Bool × Pci
prepare_netdev ans s =
    if not ans.allocates
    then (false, err_iounmap s)
    else set_up_tx ans (
        get netdev (record s {
          adapter =
              edunic_hw_set_mac ans.address
                (edunic_hw_reset (record s.adapter { carrier = false; dev_addr = ans.address }));
        }))

unfoldable pub map_device : ProbeAnswers → Pci → Bool × Pci
map_device ans s =
    if not ans.maps
    then (false, err_release_regions s)
    else if not (ans.mask64 || ans.mask32)
    then (false, err_iounmap (get iomap s))
    else prepare_netdev ans (get iomap s)

unfoldable pub edunic_probe : ProbeAnswers → Pci → Bool × Pci
edunic_probe ans s =
    if not ans.enables
    then (false, s)
    else if not ans.requests
    then (false, err_disable_device (get device_enabled s))
    else map_device ans (get regions (get device_enabled s))

-- `unregister_netdev` stops the interface if it is up, which `edunic_stop` models.
unfoldable pub edunic_remove : Pci → Pci
edunic_remove s = give device_enabled (
    give netdev (
      give regions (
        give iomap (
          edunic_free_tx_resources (
            edunic_free_rx_resources
              (edunic_hw_emulation_uninit (give napi_added (give registered s))))))))
