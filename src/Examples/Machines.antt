-- ===== src/Examples/Machines.antt =====
-- The state machines at concrete states.
use wrpc_sw.Prelude.{◌≡◌, refl, ◌≢◌, ◌⊎◌, true, false, [], ◌∷◌}
use wrpc_sw.Prelude.Int.{pos, ◌+ℤ◌, i32}
use wrpc_sw.Examples.Data.{div, some_regs, main_pll, channel, some_ext, slave_pll}
use wrpc_sw.Prelude.Int.{◌-ℤ◌}
use wrpc_sw.Softpll.Config.{time_after_eq}
use wrpc_sw.Softpll.Regs.{set_channel_status}
use wrpc_sw.Softpll.Main.Phase.{mpll_shifter_busy}
use wrpc_sw.Softpll.State.{
  Softpll, wait_main, ready, clear_dacs, wait_ext, wait_helper, is_slave, compensate_delay,
  align_locked, wait_csync, align_phase,
}
use wrpc_sw.Softpll.State.{slave}
use wrpc_sw.Softpll.Sequencer.{sequencing_fsm, external_locked, aligned}
use wrpc_sw.Softpll.Sequencer.Diagram.{
  Edge, LocksHeld, visits, sequencing_fsm-Edge, sequencing_fsm-ready, sequencing_fsm-lost,
}
use wrpc_sw.Softpll.Irq.{spll_irq_entry}
use wrpc_sw.Softpll.Irq.Modes.{spll_irq_entry-visits}
use wrpc_sw.Softpll.External.{external_align_fsm}
use wrpc_sw.Softpll.External.Diagram.{external_align_fsm-locks}
use wrpc_sw.Softpll.AuxChannel.{spll_update_aux_clock}
use wrpc_sw.Softpll.AuxChannel.Diagram.{Moves, spll_update_aux_clock-Moves}

sequencing_fsm-Edge_example : Edge slave_pll.mode ready (sequencing_fsm slave_pll 0).seq_state
sequencing_fsm-Edge_example = sequencing_fsm-Edge slave_pll 0

-- A slave that waits for its main PLL, which is locked.
abbrev waiting : Softpll
waiting = record slave_pll { seq_state = wait_main }

waiting-not_ready : waiting.seq_state ≢ ready
waiting-not_ready e = cc

waiting-ready : (sequencing_fsm waiting 1).seq_state ≡ ready
unfolding sequencing_fsm wrpc_sw.Softpll.Sequencer.enter_ready
waiting-ready = refl

sequencing_fsm-ready_example :
    ((waiting.seq_state ≡ wait_ext) × (external_locked waiting ≡ true))
    ⊎ ((waiting.seq_state ≡ wait_helper)
        × (waiting.helper.ld.locked ≡ true)
        × (waiting.helper.ld.lock_changed ≡ true)
        × (is_slave waiting.mode ≡ false))
    ⊎ ((waiting.seq_state ≡ wait_main) × (waiting.mpll.locked ≡ true))
sequencing_fsm-ready_example = sequencing_fsm-ready waiting 1 waiting-not_ready waiting-ready

-- A ready slave whose main PLL has lost its lock.
abbrev lost : Softpll
lost = record slave_pll { mpll = record main_pll { locked = false } }

sequencing_fsm-lost_example :
    let t = sequencing_fsm lost 0 in
    (LocksHeld slave lost × (t.seq_state ≡ ready) × (t.delock_count ≡ pos 0) × (t.regs ≡ some_regs))
    ⊎ ((¬ LocksHeld slave lost)
        × (t.seq_state ≡ clear_dacs)
        × (t.delock_count ≡ i32 (pos 0 +ℤ pos 1))
        × (t.regs ≡ set_channel_status 0 false some_regs))
sequencing_fsm-lost_example = sequencing_fsm-lost lost 0 refl

slave_pll-visits : visits slave_pll.mode slave_pll.seq_state ≡ true
unfolding visits
slave_pll-visits = refl

spll_irq_entry-visits_example :
    let t = spll_irq_entry slave_pll (17390 ∷ 16777316 ∷ []) in
    (t.mode ≡ slave_pll.mode) × (visits t.mode t.seq_state ≡ true)
spll_irq_entry-visits_example =
    spll_irq_entry-visits slave_pll (17390 ∷ 16777316 ∷ []) slave_pll-visits

-- The alignment's shifter has settled.
abbrev settled : Softpll
settled = record slave_pll { mpll = record main_pll { phase_shift_current = pos 30 } }

settled-not_locked : settled.ext.align_state ≢ align_locked
settled-not_locked e = cc

settled-locks : (external_align_fsm div 0 settled).0.ext.align_state ≡ align_locked
unfolding external_align_fsm mpll_shifter_busy
settled-locks = refl

external_align_fsm-locks_example :
    (compensate_delay ≡ compensate_delay) × (mpll_shifter_busy settled.mpll ≡ false)
external_align_fsm-locks_example =
    external_align_fsm-locks div 0 settled settled-not_locked settled-locks

-- The alignment waits for its timer, which has run out.
abbrev timed : Softpll
timed = record slave_pll { ext = record some_ext { align_state = wait_csync } }

timed-aligns : aligned (external_align_fsm div 0 timed).0.ext.align_state ≡ true
unfolding external_align_fsm time_after_eq i32 ◌-ℤ◌
timed-aligns = refl

timed-unaligned : aligned timed.ext.align_state ≡ false
timed-unaligned = refl

spll_update_aux_clock-Moves_example :
    Moves slave_pll 1 channel (spll_update_aux_clock div slave_pll 1).0 align_phase
spll_update_aux_clock-Moves_example = spll_update_aux_clock-Moves div slave_pll 1 channel refl
