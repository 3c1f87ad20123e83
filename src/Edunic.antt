-- ===== src/Edunic.antt =====
-- linux_nic_lab/driver: the `edunic` PCIe network driver and its emulated chip.
pub mod Adapter
pub mod Tx
pub mod Rx
pub mod Irq
pub mod Hw
pub mod Main
pub mod Pci
pub mod Machine
mod Tests
