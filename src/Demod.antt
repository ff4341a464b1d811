-- ===== src/Demod.antt =====
-- drivers/media/dvb-frontends/tc90522.c: the TC90522 demodulator of the cards.
pub mod Number
pub mod Frequency
pub mod Channels
pub mod Tune
pub mod Locked
mod Tests
