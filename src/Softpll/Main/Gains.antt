-- ===== src/Softpll/Main/Gains.antt =====
-- mpll_handle_gain_schedule of softpll/spll_main.c.
use wrpc_sw.Prelude.{◌+◌, true, false, not, ◌&&◌, none, some, get_or, ◌==◌, if◌then◌else◌}
use wrpc_sw.Prelude.Int.{pos}
use wrpc_sw.Softpll.Regs.{Regs, spll_debug}
use wrpc_sw.Softpll.Main.State.{Mpll, GainSched, no_item}

-- The `do_update` block: the gains of the schedule's current stage, and a phase detector that
-- starts again; locked_d takes the detector's flag after it.
unfoldable pub use_stage : Mpll → GainSched → Mpll
use_stage s g =
    let pi = s.pi in
    let phase_ld = s.phase_ld in
    let item = get_or g.stages g.current_stage no_item in
    record s {
      pi = record pi { kp = item.kp; ki = item.ki; shift = item.shift };
      phase_ld = record phase_ld {
        lock_samples = item.lock_samples;
        lock_cnt = pos 0;
        lock_changed = false;
        locked = false;
      };
      gain_sched = some (record g { locked_d = false });
    }

unfoldable pub run_schedule : Mpll → GainSched → Regs → Mpll × Regs
unfolding use_stage
run_schedule s g r =
    if g.locked_d && not s.phase_ld.locked
    then (use_stage (record s { locked = false }) (record g { current_stage = 0 }), r)
    else if not g.locked_d && s.phase_ld.locked
    then (
      if g.current_stage + 1 == g.n_stages
          then record s { locked = true; gain_sched = some (record g { locked_d = true }) }
          else use_stage s (record g { current_stage = g.current_stage + 1 }),
      spll_debug s.dbg_src_id 6 (pos 3) false r,
    )
    else (record s { gain_sched = some (record g { locked_d = s.phase_ld.locked }) }, r)

unfoldable pub mpll_handle_gain_schedule : Mpll → Regs → Mpll × Regs
unfolding run_schedule
mpll_handle_gain_schedule s r = elim s.gain_sched [
  | none ↦ (record s { locked = s.phase_ld.locked }, r)
  | some g ↦ run_schedule s g r
]
