-- ===== src/Examples/Loops.antt =====
-- The helper and main PLL and the phase trackers at concrete values.
use wrpc_sw.Prelude.{◌+◌, ◌-◌, ◌%◌, ◌^◌, ◌≡◌, refl, ◌⊎◌, true, false, [], ◌∷◌, arith, ltb}
use wrpc_sw.Prelude.Int.{pos, ◌+ℤ◌, ◌-ℤ◌, ◌*ℤ◌, ◌≤ℤ◌, i32, low_bits}
use wrpc_sw.Examples.Data.{some_regs, some_ld, main_pll, helper_pll, tracker}
use wrpc_sw.Softpll.Config.{tag_bits, hpll_n}
use wrpc_sw.Softpll.Helper.{helper_track, clamp_error}
use wrpc_sw.Softpll.Helper.Tracking.{Tracks, helper_track_lem}
use wrpc_sw.Softpll.Main.State.{Mpll}
use wrpc_sw.Softpll.Main.Gains.{mpll_handle_gain_schedule}
use wrpc_sw.Prelude.Int.{i64, sar, neg}
use wrpc_sw.Softpll.LockDet.{ld_update, ld_bad, ld_good, abs}
use wrpc_sw.Softpll.Pi.{pi_i_new, pi_update, pi_y_raw}
use wrpc_sw.Softpll.Regs.{spll_debug}
use wrpc_sw.Softpll.Main.Gains.{run_schedule, use_stage}
use wrpc_sw.Softpll.Main.Update.{
  track_out, track_ref, capture, mpll_sample, wrap_adders, mpll_drive, detect_freq, discard_early,
  detect_phase, align_adders, debug_sample, mpll_error, unwrap_tag, whole_periods, mask_error,
  update_dtag_dt, mpll_update, dac_word, shift_phase,
}
use wrpc_sw.Softpll.Main.Phase.{mpll_shifter_busy}
use wrpc_sw.Softpll.Main.Laws.{FreqHeld, mpll_update-FreqHeld}
use wrpc_sw.Softpll.Main.Schedule.{gap, IsRoomy, HasRoom, shift_times, shift_times_settles}
use wrpc_sw.Softpll.Ptracker.Average.{tracker_run, tracker_run_average}

helper_pll-Tracks : Tracks helper_pll 1000 1000
unfolding ◌+ℤ◌ ◌-ℤ◌
helper_pll-Tracks = ground arith

helper_track_lem_example :
    let (s', err) = helper_track helper_pll (pos (17390 % 2 ^ tag_bits)) in
    Tracks s' 17390 (1000 + 2 ^ hpll_n) × (err ≡ clamp_error (pos 17390 -ℤ pos 1000))
helper_track_lem_example =
    helper_track_lem helper_pll 1000 1000 17390 helper_pll-Tracks (omega arith) (omega arith)
      (omega arith) (omega arith)

main_pll-locks : (mpll_update main_pll (pos 5000) 1 some_regs).2 ≡ true
unfolding mpll_update track_out track_ref capture mpll_sample shift_phase wrap_adders mpll_drive
    detect_freq discard_early ld_update abs i32 ◌-ℤ◌ update_dtag_dt detect_phase
    mpll_handle_gain_schedule i64 low_bits neg sar ◌*ℤ◌ ◌+ℤ◌ ld_bad ld_good run_schedule use_stage
    align_adders dac_word debug_sample mask_error mpll_error unwrap_tag whole_periods pi_i_new
    pi_update pi_y_raw spll_debug
main_pll-locks = refl

main_pll-FreqHeld : FreqHeld main_pll
main_pll-FreqHeld = ground arith

mpll_update-FreqHeld_example :
    FreqHeld (mpll_update main_pll (pos 9000) 1 some_regs).0
    × ((main_pll.freq_ld.locked ≡ false)
        ⊎ ((mpll_update main_pll (pos 9000) 1 some_regs).0.freq_ld.locked ≡ true))
mpll_update-FreqHeld_example =
    mpll_update-FreqHeld main_pll (pos 9000) 1 some_regs main_pll-FreqHeld

main_pll-IsRoomy : IsRoomy main_pll
main_pll-IsRoomy = ground arith

main_pll-HasRoom : HasRoom 10 main_pll
main_pll-HasRoom = ground arith

shift_times_settles_example : mpll_shifter_busy (shift_times 10 main_pll) ≡ ltb 10 (gap main_pll)
shift_times_settles_example = shift_times_settles 10 main_pll main_pll-HasRoom refl refl

abbrev lost_pll : Mpll
lost_pll = record main_pll { phase_ld = record some_ld { locked = false } }

tracker_run_average_example :
    let s' = tracker_run tracker (16000 ∷ 16100 ∷ 50 ∷ []) in
    (s'.ready ≡ true)
    × (s'.avg_count ≡ pos 0)
    × (pos 16000 -ℤ pos (2 ^ (hpll_n - 2)) ≤ℤ s'.phase_val)
    × (s'.phase_val ≤ℤ pos 16000 +ℤ pos (2 ^ (hpll_n - 2)))
tracker_run_average_example =
    tracker_run_average tracker 16000 (16100 ∷ 50 ∷ []) refl refl (omega arith) (omega arith)
      (omega arith) (ground arith)
