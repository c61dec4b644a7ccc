-- ===== src/Pps.antt =====
-- The PPS generator of dev/pps_gen.c: its time registers, read and written.
pub mod Regs
pub mod Snapshot
