-- ===== src/Section.antt =====
-- apps/dvb/cmds: the sections of a PID are put together from its packets (section.c), and parsed (pat.c, pmt.c).
pub mod Assemble
pub mod Copy
pub mod Bounds
pub mod Whole
pub mod Carried
pub mod Pat
pub mod Pmt
pub mod Descriptors
pub mod PmtSection
pub mod Said
pub mod Meaning
pub mod PmtReturns
mod PmtTests
mod Tests
