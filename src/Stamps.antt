-- ===== src/Stamps.antt =====
-- apps/dvb/cmds/fixpcr.c, which makes the time stamps of a stream consecutive, and what restamp.c has apart.
pub mod Clock
pub mod Packet
pub mod Stream
pub mod Written
pub mod RoundTrip
pub mod Sequence
pub mod Paced
pub mod Decoded
pub mod Sized
pub mod Ended
mod Tests
