-- ===== src/Softpll/Main.antt =====
-- The main DDMTD PLL of softpll/spll_main.c, as CONFIG_WR_NODE builds it, without
-- CONFIG_FRAC_SPLL, CONFIG_DAC_LOG and WITH_SEQUENCING.
pub mod State
pub mod Gains
pub mod Update
pub mod Phase
pub mod Errors
pub mod Laws
pub mod Schedule
