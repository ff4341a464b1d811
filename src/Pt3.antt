-- ===== src/Pt3.antt =====
-- drivers/media/pci/ptx/pt3_pci.c: the driver of the Earthsoft PT3's PCIe bridge.
pub mod I2c
pub mod Codes
pub mod Packed
pub mod Xfr
pub mod Ring
pub mod Circular
pub mod Dma
pub mod Handed
pub mod Memory
pub mod Probe
mod Tests
