-- ===== src/Softpll/Main/Phase.antt =====
-- from_picos, mpll_set_phase_shift and mpll_shifter_busy of softpll/spll_main.c, and to_picos of
-- softpll/softpll_ng.c.
use wrpc_sw.Prelude.{ℕ, ◌^◌, Bool, not, if◌then◌else◌}
use wrpc_sw.Prelude.Int.{ℤ, pos, ◌*ℤ◌, leb_ℤ, eqb_ℤ, i32, i64, sar, tdiv, neg, low_bits}
use wrpc_sw.Softpll.Config.{hpll_n, clock_period_picoseconds, divide_dmtd_clocks_by_2}
use wrpc_sw.Softpll.Main.State.{Mpll}

-- The variant without CONFIG_WRPC_PPSI: a 64-bit product, and C's division.
unfoldable pub from_picos_64 : ℤ → ℤ
from_picos_64 ps = i32 (tdiv (i64 (ps *ℤ pos (2 ^ hpll_n))) (pos clock_period_picoseconds))

unfoldable pub to_picos : ℤ → ℤ
to_picos units = i32 (sar (i64 (units *ℤ pos clock_period_picoseconds)) hpll_n)

-- With CONFIG_WRPC_PPSI the division is ppsi's __div64_32, which replaces an unsigned 64-bit number
-- by its quotient: `div64`.
module _ (div64 : ℕ → ℕ → ℕ) where
  unfoldable pub from_picos : ℤ → ℤ
  from_picos ps =
      if leb_ℤ (pos 0) ps
      then i32 (pos (div64 (low_bits 64 (ps *ℤ pos (2 ^ hpll_n))) clock_period_picoseconds))
      else let ups = low_bits 64 (i32 (i32 (neg ps) *ℤ pos (2 ^ hpll_n))) in
        i32 (neg (pos (div64 ups clock_period_picoseconds)))

  unfoldable pub mpll_set_phase_shift : Mpll → ℤ → Mpll
  mpll_set_phase_shift s desired_shift_ps = record s {
    phase_shift_target =
        tdiv (from_picos desired_shift_ps) (if divide_dmtd_clocks_by_2 then pos 2 else pos 1);
  }

unfoldable pub mpll_shifter_busy : Mpll → Bool
mpll_shifter_busy s = not (eqb_ℤ s.phase_shift_target s.phase_shift_current)
