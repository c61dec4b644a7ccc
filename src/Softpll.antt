-- ===== src/Softpll.antt =====
-- The SoftPLL: softpll/*.c. Each child models one source file, or one state machine of
-- softpll/softpll_ng.c.
pub mod Config
pub mod Regs
pub mod Pi
pub mod LockDet
pub mod Helper
pub mod Main
pub mod Ptracker
pub mod State
pub mod Sequencer
pub mod Irq
pub mod External
pub mod AuxChannel
pub mod Api
