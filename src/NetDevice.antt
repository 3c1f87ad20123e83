-- ===== src/NetDevice.antt =====
-- net_device/simple_netdev.c: a PCI network driver with descriptor rings.
pub mod Device
pub mod Tx
pub mod Rx
pub mod Irq
pub mod Setup
pub mod Mtu
mod Tests
