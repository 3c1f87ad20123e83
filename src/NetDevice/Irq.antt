-- ===== src/NetDevice/Irq.antt =====
-- net_device/simple_netdev.c: interrupts and the interface going up and down, `my_irq_handler`,
-- `my_open` and `my_stop`.
pub mod Handled
pub mod Alive
use linux_network_lab.Base.{
  ℕ, Bool, true, false, not, ◌&&◌, ◌||◌, ltb, if◌then◌else◌, Option, none, some,
}
use linux_network_lab.NetDevice.Device.{Irqs, Registers, Device}
use linux_network_lab.NetDevice.Tx.{tx_clean}
use linux_network_lab.NetDevice.Rx.{both_irqs}

-- irqreturn_t
pub data IrqReturn : Type 0 where
  irq_none irq_handled : IrqReturn

-- TX stays enabled.
abbrev pub mask_rx : Device → Device
mask_rx d = record d { regs = record d.regs { irq_mask = record { rx = false; tx = true } } }

abbrev pub napi_schedule : Device → Device
napi_schedule d = record d { napi_scheduled = true }

-- The RX event masks its own interrupt and schedules NAPI.
unfoldable pub schedule_poll : Device → Device
schedule_poll d = napi_schedule (mask_rx d)

unfoldable pub rx_event : Irqs → Device → Device
rx_event status d = if status.rx then schedule_poll d else d

unfoldable pub tx_event : Irqs → Device → Device
tx_event status d = if status.tx then tx_clean d else d

-- A bit that is written to the status register is cleared.
unfoldable pub acknowledge : Irqs → Device → Device
acknowledge status d = record d {
  regs = record d.regs {
    irq_status = record {
      rx = d.regs.irq_status.rx && not status.rx;
      tx = d.regs.irq_status.tx && not status.tx;
    };
  };
}

unfoldable pub irq_handler : Device → IrqReturn × Device
irq_handler d =
    let status = d.regs.irq_status in
    if not (status.rx || status.tx)
    then (irq_none, d)
    else (irq_handled, acknowledge status (tx_event status (rx_event status d)))

-- `my_open`; NAPI is not on the schedule when it is enabled.
unfoldable pub open_device : Device → Device
open_device d = record d {
  regs = record d.regs { irq_mask = both_irqs };
  napi_scheduled = false;
  queue_stopped = false;
}

-- `my_stop`; `napi_disable` waits until NAPI is off the schedule.
unfoldable pub stop_device : Device → Device
stop_device d = record d {
  queue_stopped = true;
  regs = record d.regs { irq_mask = record { rx = false; tx = false } };
  napi_scheduled = false;
}
