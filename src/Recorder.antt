-- ===== src/Recorder.antt =====
-- Parts of the recorder, apps/cdev/recpt1: its queue of buffers, its times and its directories.
mod Queue
mod Fifo
mod Waiting
mod Mkpath
mod Parents
mod Write
mod Written
mod Tune
mod Descriptors
mod Devices
mod Tests
pub use Queue.*
pub use Fifo.*
pub use Waiting.*
pub use Mkpath.*
pub use Parents.*
pub use Write.*
pub use Written.*
pub use Tune.*
pub use Descriptors.*
pub use Devices.*
