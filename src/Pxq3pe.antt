-- ===== src/Pxq3pe.antt =====
-- The state of drivers/media/pci/ptx/pxq3pe_pci.c, the driver of the PX-Q3PE: what an adapter keeps of
-- its transport stream.
mod Ring
mod Stored
mod Put
mod Thread
mod Clear
mod Cleared
mod Served
mod Irq
mod Received
mod Routed
mod Runs
mod Interrupt
mod Dma
mod Switched
mod Tests
pub use Ring.*
pub use Stored.*
pub use Put.*
pub use Thread.*
pub use Clear.*
pub use Cleared.*
pub use Served.*
pub use Irq.*
pub use Received.*
pub use Routed.*
pub use Runs.*
pub use Interrupt.*
pub use Dma.*
pub use Switched.*
