-- ===== src/Softpll/Config.antt =====
-- The build parameters of the SoftPLL: softpll/spll_defs.h, and boards/generic/board-config.h for
-- the 8-bit PHY (configs/spec_defconfig). The target is RISC-V, so `long` has 32 bits.
use wrpc_sw.Prelude.{ℕ, Bool, true}
use wrpc_sw.Prelude.Int.{pos, ◌-ℤ◌, ltb_ℤ, leb_ℤ, i32}

abbrev pub tag_bits : ℕ
tag_bits = 22

abbrev pub hpll_n : ℕ
hpll_n = 14

abbrev pub pi_fracbits : ℕ
pi_fracbits = 12

abbrev pub board_spll_dac_bits : ℕ
board_spll_dac_bits = 16

abbrev pub board_spll_div_bits : ℕ
board_spll_div_bits = 0

abbrev pub tics_per_second : ℕ
tics_per_second = 1000

abbrev pub clock_period_picoseconds : ℕ
clock_period_picoseconds = 8000

abbrev pub max_chan_aux : ℕ
max_chan_aux = 2

-- `reverse_spll` is 1 in every build but the switch's.
abbrev pub reverse_spll : Bool
reverse_spll = true

-- include/dev/syscon.h: `long` differences, which wrap.
unfoldable pub time_after : ℕ → ℕ → Bool
time_after a b = ltb_ℤ (i32 (i32 (pos b) -ℤ i32 (pos a))) (pos 0)

unfoldable pub time_after_eq : ℕ → ℕ → Bool
time_after_eq a b = leb_ℤ (pos 0) (i32 (i32 (pos a) -ℤ i32 (pos b)))

abbrev pub divide_dmtd_clocks_by_2 : Bool
divide_dmtd_clocks_by_2 = true
