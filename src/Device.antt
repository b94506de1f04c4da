-- ===== src/Device.antt =====
-- qemu-plugin: the PCIe devices of the emulator.
pub mod Irq
pub mod Mmio
pub mod Dma
pub mod Config
pub mod Pf
pub mod Routes
pub mod Discover
