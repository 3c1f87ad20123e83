-- ===== src/NetDevice/Tests.antt =====
-- net_device/simple_netdev.c: the model at concrete inputs. An skb goes out, and a packet comes in.
mod Lifetime
mod Race
use mathlib.Core.List.{Perm}
use linux_network_lab.Base.{
  ℕ, zero, suc, ◌+◌, ◌%◌, ◌≤◌, ◌<◌, min, ◌≡◌, refl, Bool, true, false, not, ◌&&◌, List, [], ◌∷◌,
  ◌++◌, Option, none, some, arith, length, take, drop, replicate, length-replicate,
  get_or-replicate, ltb, if◌then◌else◌,
}
use linux_network_lab.NetDevice.Device.{
  rx_ring_size, tx_ring_size, Irqs, RxDesc, zero_rx_desc, zero_tx_desc, Priv, Registers, Device,
}
use linux_network_lab.NetDevice.Tx.{
  TxResult, tx_ok, tx_busy, DmaAnswer, tx_ring_full, start_xmit, tx_clean, free_pending_tx,
}
use linux_network_lab.NetDevice.Tx.Queue.{Holds}
use linux_network_lab.NetDevice.Tx.Xmit.{start_xmit_lem}
use linux_network_lab.NetDevice.Tx.Clean.{completed, tx_clean_lem}
use linux_network_lab.NetDevice.Tx.Runs.{
  nic_send, TxOp, xmit, clean, send, tx_run, Holds-nic_send, tx_run_freed,
}
use linux_network_lab.NetDevice.Rx.{both_irqs, poll}
use linux_network_lab.NetDevice.Rx.Ring.{Waits, Given}
use linux_network_lab.NetDevice.Rx.Poll.{kept, poll_lem}
use linux_network_lab.NetDevice.Rx.Runs.{
  nic_receive, nic_receive-Waits, RxOp, arrive, poll_now, rx_run, rx_run_order,
}
use linux_network_lab.NetDevice.Setup.Fresh.{zeros-Holds}

abbrev pub ready_desc : RxDesc
ready_desc = record zero_rx_desc { buf = some 500; owned_by_hw = true }

abbrev pub ready_device : Device
ready_device = record {
  priv = record {
    rx_ring = replicate rx_ring_size ready_desc;
    rx_ring_dma = 4096;
    rx_head = 0;
    tx_ring = replicate tx_ring_size zero_tx_desc;
    tx_ring_dma = 8192;
    tx_head = 0;
    tx_clean = 0;
  };
  regs = record {
    rx_base_low = 0;
    rx_base_high = 0;
    tx_base_low = 0;
    tx_base_high = 0;
    rx_tail = 0;
    tx_tail = 0;
    irq_status = record { rx = true; tx = false };
    irq_mask = both_irqs;
  };
  queue_stopped = false;
  napi_scheduled = false;
  skbs_freed = [];
  unmapped = [];
  handed_up = [];
}

abbrev pub mapped_at : ℕ → DmaAnswer
mapped_at a = record { address = a; mapped = true }

pub ready-Holds : Holds ready_device.priv []
ready-Holds = zeros-Holds ready_device.priv refl refl refl

pub ready-Waits : Waits ready_device.priv []
ready-Waits = record {
  whole = length-replicate rx_ring_size ready_desc;
  head_in = omega arith;
  room = omega arith;
  filled = λ i k hk e. elim hk [ ];
  given = λ i hi far.
      rw (get_or-replicate rx_ring_size i ready_desc zero_rx_desc hi)
        (record { theirs = refl; empty = refl });
}

abbrev queued_device : Device
queued_device = (start_xmit 7 60 (mapped_at 9000) ready_device).1

start_xmit_lem_example :
    ((start_xmit 7 60 (mapped_at 9000) ready_device).0 ≡ tx_ok)
    × Holds queued_device.priv (7 ∷ [])
    × (queued_device.skbs_freed ≡ [] ++ [])
    × (queued_device.queue_stopped ≡ false)
    × (queued_device.regs.tx_tail ≡ queued_device.priv.tx_head)
start_xmit_lem_example = start_xmit_lem ready_device [] 7 60 (mapped_at 9000) ready-Holds refl

abbrev sent_device : Device
sent_device = nic_send 0 queued_device

sent-Holds : Holds sent_device.priv (7 ∷ [])
sent-Holds =
    Holds-nic_send 0 queued_device (7 ∷ [])
      (start_xmit_lem ready_device [] 7 60 (mapped_at 9000) ready-Holds refl).1

one_cleaned :
    let d' = tx_clean sent_device in
    let n = completed sent_device.priv.tx_ring sent_device.priv.tx_clean (7 ∷ []) in
    Holds d'.priv (drop n (7 ∷ []))
    × (d'.skbs_freed ≡ sent_device.skbs_freed ++ take n (7 ∷ []))
    × (d'.queue_stopped ≡ (sent_device.queue_stopped && tx_ring_full d'.priv))
    × (d'.priv.tx_head ≡ sent_device.priv.tx_head)
    × (d'.regs ≡ sent_device.regs)
one_cleaned = tx_clean_lem sent_device (7 ∷ []) sent-Holds

abbrev tx_ops : List TxOp
tx_ops = xmit 7 60 (mapped_at 9000) ∷ xmit 8 60 (mapped_at 9100) ∷ send 0 ∷ clean ∷ []

tx_run_freed_example :
    let (d', given) = tx_run tx_ops (ready_device, []) in
    ((q : List ℕ) × Holds d'.priv q × Perm given (d'.skbs_freed ++ q))
    × Perm given (free_pending_tx d').skbs_freed
tx_run_freed_example = tx_run_freed tx_ops ready_device ready-Holds refl refl

abbrev hello : List ℕ
hello = 104 ∷ 101 ∷ 108 ∷ 108 ∷ 111 ∷ []

abbrev received_device : Device
received_device = nic_receive hello 0 ready_device

received-Waits : Waits received_device.priv (hello ∷ [])
received-Waits = nic_receive-Waits ready_device [] hello 0 ready-Waits refl (omega arith)

poll_lem_example :
    let (work_done, d') = poll (λ n. true) 64 true received_device in
    (work_done ≡ 1)
    × Waits d'.priv []
    × (d'.handed_up ≡ received_device.handed_up ++ kept (λ n. true) 0 (hello ∷ []))
    × (d'.regs.irq_mask ≡ both_irqs)
    × (d'.napi_scheduled ≡ false)
    × (d'.regs.rx_tail ≡ d'.priv.rx_head)
    × (d'.priv.rx_head ≡ (received_device.priv.rx_head + 1) % rx_ring_size)
unfolding nic_receive
poll_lem_example = poll_lem (λ n. true) 64 true received_device (hello ∷ []) received-Waits refl

abbrev rx_ops : List RxOp
rx_ops = arrive hello ∷ arrive (1 ∷ 2 ∷ []) ∷ poll_now 1 true ∷ []

rx_run_order_example :
    let (d', i, taken) = rx_run rx_ops (ready_device, 0, []) in
    (q : List (List ℕ)) × Waits d'.priv q × (taken ≡ d'.handed_up ++ q)
rx_run_order_example = rx_run_order rx_ops ready_device ready-Waits refl refl
