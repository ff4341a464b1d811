-- ===== src/Splitter.antt =====
-- apps/cdev/recpt1/tssplitter_lite.c: keeps the packets of chosen services in a transport stream.
pub mod Crc
pub mod Residue
pub mod Sid
pub mod Pieces
pub mod Rebuild
pub mod Rebuilt
pub mod State
pub mod Select
pub mod Selected
pub mod Wanted
pub mod Pmt
pub mod Streams
pub mod Stall
pub mod Split
pub mod Filter
mod Tests
