-- ===== src/Tuner.antt =====
-- The tuners of drivers/media/tuners: what the `tune` functions of qm1d1c004x.c and mxl301rf.c compute
-- from a frequency and put into the chips' registers.
pub mod Satellite
pub mod Terrestrial
mod Tests
