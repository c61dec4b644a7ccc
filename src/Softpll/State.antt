-- ===== src/Softpll/State.antt =====
-- The SoftPLL's whole state: `softpll`, `ptracker_mask` and spll_ptracker.c's `tag_ref`
-- (softpll/softpll_ng.h, softpll/softpll_ng.c, softpll/spll_external.h), with the registers and the
-- static variables of external_align_fsm. `ext` points to the helper and main PLL of this record.
-- An aux channel's `pll` is a union. The model keeps its two members apart: a tracker overlays the
-- first words of the main PLL, its gains among them, so after a channel was a monitor the model no
-- longer shows the gains of its PLL, until spll_init sets them again.
use wrpc_sw.Prelude.{ℕ, Bool, true, false, List}
use wrpc_sw.Prelude.Int.{ℤ}
use wrpc_sw.Softpll.Regs.{Regs}
use wrpc_sw.Softpll.Helper.{Helper}
use wrpc_sw.Softpll.Main.State.{Mpll}
use wrpc_sw.Softpll.Ptracker.{Ptracker}

pub data Mode : Type 0 where
  disabled grand_master free_running_master slave : Mode

pub data SeqState : Type 0 where
  start_ext wait_ext start_helper wait_helper start_main wait_main seq_disabled : SeqState
  ready clear_dacs wait_clear_dacs : SeqState

pub data AuxSeq : Type 0 where
  aux_disabled lock_pll align_phase slave_ready wait_monitor_lock monitor_ready : AuxSeq

pub data AuxMode : Type 0 where
  aux_slave phase_monitor : AuxMode

pub data AlignState : Type 0 where
  ext_off wait_clkin wait_plock start start_main_pll init_csync wait_csync : AlignState
  start_alignment wait_sample compensate_delay align_locked : AlignState

pub record Ext : Type 0 where
  pub enabled : Bool
  pub align_state : AlignState
  pub align_timer : ℕ
  pub align_target : ℤ
  pub align_step : ℤ
  pub align_shift : ℤ
  pub pps_latency_ps : ℤ
  pub timeout : ℕ  -- static in external_align_fsm
  pub old_ext_pps_latency_ps : ℤ  -- static in external_align_fsm

pub record Aux : Type 0 where
  pub mode : AuxMode
  pub seq_state : AuxSeq
  pub phase_value : ℤ
  pub dmtd : Mpll
  pub tracker : Ptracker

pub record Softpll : Type 0 where
  pub mode : Mode
  pub seq_state : SeqState
  pub dac_timeout : ℕ
  pub delock_count : ℤ
  pub irq_count : ℕ
  pub ref_count : ℕ
  pub tag_count : ℕ
  pub mpll_shift_ps : ℤ
  pub helper : Helper
  pub ext : Ext
  pub mpll : Mpll
  pub aux : List Aux
  pub ptrackers : List Ptracker
  pub ptracker_mask : ℕ
  pub tag_ref : ℤ
  pub regs : Regs

abbrev pub is_grand_master : Mode → Bool
is_grand_master grand_master = true
is_grand_master _ = false

abbrev pub is_slave : Mode → Bool
is_slave slave = true
is_slave _ = false

abbrev pub is_disabled : Mode → Bool
is_disabled disabled = true
is_disabled _ = false
