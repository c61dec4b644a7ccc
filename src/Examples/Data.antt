-- ===== src/Examples/Data.antt =====
-- Concrete states of the SoftPLL for the examples.
use wrpc_sw.Prelude.{ℕ, ◌/◌, true, false, [], ◌∷◌, some, replicate}
use wrpc_sw.Prelude.Int.{pos, negsuc}
use wrpc_sw.Softpll.Regs.{Regs}
use wrpc_sw.Softpll.Pi.{Pi}
use wrpc_sw.Softpll.LockDet.{LockDet}
use wrpc_sw.Softpll.Helper.{Helper}
use wrpc_sw.Softpll.Main.State.{GainItem, GainSched, Mpll}
use wrpc_sw.Softpll.Ptracker.{Ptracker}
use wrpc_sw.Softpll.State.{
  Softpll, Ext, Aux, aux_slave, align_phase, slave, ready, compensate_delay,
}

-- ppsi's __div64_32, as it is meant.
abbrev pub div : ℕ → ℕ → ℕ
div n b = n / b

abbrev pub some_regs : Regs
some_regs = record {
  csr = 0;
  eccr = 0;
  occr = 0x0f;
  ocer = 1;
  rcer = 1;
  dac_hpll = 32768;
  dac_main = 32768;
  al_cr = 0;
  al_cin = 0;
  deglitch_thr = 1000;
  irq_unmasked = true;
  cpu_irq = true;
  dfr_spll = [];
  ppsg_cr = 0;
  ppsg_escr = 0;
  ppsg_adj_nsec = 0;
  tics = 100;
  n_chan_ref = 1;
  n_chan_out = 2;
}

abbrev pub some_pi : Pi
some_pi = record {
  ki = negsuc 29;
  kp = negsuc 1099;
  shift = 12;
  bias = pos 32768;
  integrator = pos 0;
  anti_windup = true;
  y_min = pos 5;
  y_max = pos 65530;
  x = pos 0;
  y = pos 32768;
}

abbrev pub some_ld : LockDet
some_ld = record {
  lock_cnt = pos 1000;
  lock_samples = pos 1000;
  delock_samples = pos 100;
  threshold = pos 1200;
  locked = true;
  lock_changed = false;
}

-- The frequency detector as mpll_init sets it, locked.
abbrev pub freq_ld : LockDet
freq_ld = record {
  lock_cnt = pos 50;
  lock_samples = pos 50;
  delock_samples = pos 20000;
  threshold = pos 50;
  locked = true;
  lock_changed = false;
}

abbrev pub item : GainItem
item = record { kp = negsuc 999; ki = negsuc 19; shift = 12; lock_samples = pos 100 }

abbrev pub sched : GainSched
sched = record { n_stages = 2; current_stage = 1; stages = replicate 2 item; locked_d = true }

-- A locked main PLL that is 10 steps away from the shift it is to reach.
abbrev pub main_pll : Mpll
main_pll = record {
  pi = some_pi;
  phase_ld = some_ld;
  freq_ld = freq_ld;
  gain_sched = some sched;
  dref_dt = pos 16384;
  dout_dt = pos 16384;
  tag_ref_raw_d = pos 100;
  tag_out_raw_d2 = pos 100;
  freq_prelock_gain_boost = pos 20;
  discard_early_cnt = 0;
  adder_ref = pos 0;
  adder_out = pos 0;
  tag_ref = pos 5000;
  tag_ref_d = pos 5000;
  tag_out = negsuc 0;
  tag_out_d = pos 4900;
  locked = true;
  phase_shift_target = pos 30;
  phase_shift_current = pos 20;
  id_ref = 0;
  id_out = 1;
  sample_n = pos 7;
  dac_index = 0;
  enabled = true;
  ps_freeze = false;
  vco_freeze = false;
  dbg_src_id = 1;
  lock_start_ms = 0;
  last_phase_lock_duration_ms = pos 10;
  last_freq_lock_duration_ms = pos 10;
}

abbrev pub helper_pll : Helper
helper_pll = record {
  p_adder = pos 0;
  p_setpoint = pos 1000;
  tag_d0 = pos 1000;
  ref_src = 0;
  sample_n = pos 1;
  pi = some_pi;
  ld = some_ld;
  lock_start_ms = 0;
  last_lock_duration_ms = pos 5;
}

abbrev pub tracker : Ptracker
tracker = record {
  enabled = true;
  id = 0;
  n_avg = pos 3;
  acc = pos 0;
  avg_count = pos 0;
  preserve_sign = 0;
  phase_val = pos 0;
  ready = false;
  dbg_channel = negsuc 0;
}

abbrev pub channel : Aux
channel = record {
  mode = aux_slave;
  seq_state = align_phase;
  phase_value = pos 0;
  dmtd = record main_pll { phase_shift_current = pos 30 };
  tracker = tracker;
}

abbrev pub some_ext : Ext
some_ext = record {
  enabled = true;
  align_state = compensate_delay;
  align_timer = 0;
  align_target = pos 0;
  align_step = pos 0;
  align_shift = pos 0;
  pps_latency_ps = pos 0;
  timeout = 0;
  old_ext_pps_latency_ps = pos 0;
}

abbrev pub slave_pll : Softpll
slave_pll = record {
  mode = slave;
  seq_state = ready;
  dac_timeout = 0;
  delock_count = pos 0;
  irq_count = 0;
  ref_count = 0;
  tag_count = 0;
  mpll_shift_ps = pos 0;
  helper = helper_pll;
  ext = some_ext;
  mpll = main_pll;
  aux = channel ∷ [];
  ptrackers = tracker ∷ [];
  ptracker_mask = 1;
  tag_ref = pos 0;
  regs = some_regs;
}
