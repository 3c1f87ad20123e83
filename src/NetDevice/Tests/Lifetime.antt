-- ===== src/NetDevice/Tests/Lifetime.antt =====
-- net_device/simple_netdev.c: interrupts, the probe and the removal at concrete inputs.
use linux_network_lab.Base.{
  ◌+◌, ◌≡◌, refl, true, false, List, [], ◌∷◌, none, some, replicate, length-replicate,
}
use linux_network_lab.NetDevice.Device.{rx_ring_size, zero_rx_desc}
use linux_network_lab.NetDevice.Rx.Ring.{Waits}
use linux_network_lab.NetDevice.Irq.{irq_handled, irq_handler, open_device}
use linux_network_lab.NetDevice.Irq.Handled.{irq_handler_lem}
use linux_network_lab.NetDevice.Irq.Alive.{
  Alive, UpState, UpOp, raise, handler_masks, handler_schedules, poll_completes, poll_enables, xmit,
  up_run, open_device-Alive,
}
use linux_network_lab.NetDevice.Setup.{Machine, BufferAnswers, alloc_rx_buffers}
use linux_network_lab.NetDevice.Setup.Probe.{ProbeAnswers, probe_code, pci_probe, pci_remove}
use linux_network_lab.NetDevice.Setup.Labels.{Settled}
use linux_network_lab.NetDevice.Setup.Accounts.{Probed, Running, pci_probe-Probed}
use linux_network_lab.NetDevice.Setup.Removal.{pci_remove-Settled}
use linux_network_lab.NetDevice.Setup.Fresh.{alloc_rx_buffers-Waits}
use linux_network_lab.NetDevice.Tests.{ready_device, mapped_at}

abbrev opened : UpState
opened = record { device = open_device ready_device; handlers = 0; polls = 0 }

-- A second RX event is handled while the first poll is about to enable the interrupts.
abbrev up_ops : List UpOp
up_ops =
    raise (record { rx = true; tx = true })
    ∷ handler_masks
    ∷ handler_schedules
    ∷ xmit 7 60 (mapped_at 9000)
    ∷ poll_completes
    ∷ handler_masks
    ∷ handler_schedules
    ∷ poll_enables
    ∷ []

open_device-Alive_example : Alive (up_run up_ops opened)
open_device-Alive_example = open_device-Alive up_ops ready_device

ready_interrupt :
    let (r, d') = irq_handler ready_device in
    (r ≡ irq_handled)
    × (d'.regs.irq_status.rx ≡ false)
    × (d'.regs.irq_status.tx ≡ false)
    × (d'.napi_scheduled ≡ true)
ready_interrupt = irq_handler_lem ready_device

abbrev blank_machine : Machine
blank_machine = record {
  device = record ready_device { priv = record ready_device.priv { rx_ring = []; tx_ring = [] } };
  acquired = [];
  released = [];
}

abbrev all_buffers : BufferAnswers
all_buffers = record { kmalloc = λ i. some (500 + i); map_rx = λ i. mapped_at (9000 + i) }

-- The interrupt is refused.
abbrev no_irq : ProbeAnswers
no_irq = record {
  enable = none;
  request_regions = none;
  dma_64 = some 5;
  dma_32 = none;
  alloc_etherdev = true;
  iomap = true;
  rx_ring_at = some 4096;
  tx_ring_at = some 8192;
  buffers = all_buffers;
  request_irq = some 16;
  register = none;
}

abbrev all_granted : ProbeAnswers
all_granted = record no_irq { request_irq = none }

pci_probe-Probed_example : Probed (pci_probe no_irq blank_machine)
pci_probe-Probed_example = pci_probe-Probed no_irq blank_machine refl refl refl

abbrev running_machine : Machine
running_machine = (pci_probe all_granted blank_machine).1

running_machine-Running : Running running_machine
unfolding probe_code Probed
running_machine-Running = (pci_probe-Probed all_granted blank_machine refl refl refl).running

pci_remove-Settled_example : Settled (pci_remove true running_machine)
pci_remove-Settled_example = pci_remove-Settled true running_machine running_machine-Running

abbrev ringed_machine : Machine
ringed_machine = record blank_machine {
  device = record ready_device {
    priv = record ready_device.priv { rx_ring = replicate rx_ring_size zero_rx_desc };
  };
}

buffers_found : (alloc_rx_buffers all_buffers ringed_machine).0 ≡ none
unfolding probe_code
buffers_found = refl

after_alloc : Waits (alloc_rx_buffers all_buffers ringed_machine).1.device.priv []
after_alloc =
    alloc_rx_buffers-Waits all_buffers ringed_machine (length-replicate rx_ring_size zero_rx_desc)
      refl buffers_found
