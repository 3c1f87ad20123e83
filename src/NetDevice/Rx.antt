-- ===== src/NetDevice/Rx.antt =====
-- net_device/simple_netdev.c: reception, `my_poll`.
pub mod Ring
pub mod Poll
pub mod Runs
use linux_network_lab.Base.{
  ℕ, zero, suc, ◌+◌, ◌%◌, Bool, true, false, not, ◌&&◌, List, [], ◌∷◌, ◌++◌, take, set, add_u32,
  ltb, if◌then◌else◌,
}
use linux_network_lab.NetDevice.Device.{
  rx_ring_size, RxDesc, Priv, Registers, Irqs, Device, rx_desc,
}

abbrev pub next_rx : ℕ → ℕ
next_rx i = add_u32 i 1 % rx_ring_size

abbrev pub both_irqs : Irqs
both_irqs = record { rx = true; tx = true }

-- The loop of `my_poll` goes on while the head's descriptor is given back by the NIC, and done.
unfoldable pub may_poll : Priv → Bool
may_poll p = not (rx_desc p.rx_ring p.rx_head).owned_by_hw && (rx_desc p.rx_ring p.rx_head).finished

-- The bytes of the packet: the first `len` in the buffer.
abbrev pub packet : RxDesc → List ℕ
packet t = take t.len t.frame

-- A packet goes up if there is an skb for it; its descriptor goes back to the NIC in any case.
unfoldable pub poll_one : Bool → Device → Device
poll_one has_skb d = record d {
  priv = record d.priv {
    rx_ring = set d.priv.rx_ring d.priv.rx_head (record (rx_desc d.priv.rx_ring d.priv.rx_head) {
      len = 0;
      finished = false;
      owned_by_hw = true;
    });
    rx_head = next_rx d.priv.rx_head;
  };
  regs = record d.regs { rx_tail = next_rx d.priv.rx_head };
  handed_up =
      d.handed_up ++ (if has_skb then packet (rx_desc d.priv.rx_ring d.priv.rx_head) ∷ [] else []);
}

-- `left` is `budget - work_done`; `alloc n` says whether `netdev_alloc_skb` has an skb for the
-- packet number `n` of this poll.
unfoldable pub poll_loop : (ℕ → Bool) → ℕ → ℕ → Device → ℕ × Device
poll_loop alloc zero work_done d = (work_done, d)
poll_loop alloc (suc left) work_done d = elim (may_poll d.priv) [
  | true ↦ poll_loop alloc left (suc work_done) (poll_one (alloc work_done) d)
  | false ↦ (work_done, d)
]

-- `napi_complete_done` takes NAPI off the schedule.
abbrev pub complete_napi : Device → Device
complete_napi d = record d { napi_scheduled = false }

abbrev pub enable_irqs : Device → Device
enable_irqs d = record d { regs = record d.regs { irq_mask = both_irqs } }

-- `completes` is the answer of `napi_complete_done`, which has taken NAPI off the schedule if it is
-- true.
unfoldable pub finish_poll : ℕ → Bool → ℕ × Device → ℕ × Device
finish_poll budget completes (work_done, d) =
    if ltb work_done budget && completes
    then (work_done, enable_irqs (complete_napi d))
    else (work_done, d)

unfoldable pub poll : (ℕ → Bool) → ℕ → Bool → Device → ℕ × Device
poll alloc budget completes d = finish_poll budget completes (poll_loop alloc budget 0 d)
