-- ===== src/Softpll/Main/State.antt =====
-- The state of the main PLL (softpll/spll_main.h, softpll/spll_common.h) with mpll_init, mpll_start
-- and mpll_stop. `gain_sched` is a pointer that may be null: an option. The schedule that it points
-- to belongs to the board's code, which hands it over once by spll_set_gain_schedule, so the model
-- keeps it here.
use wrpc_sw.Prelude.{
  ℕ, zero, suc, ◌+◌, ◌-◌, ◌*◌, ◌%◌, ◌^◌, Bool, true, false, Option, none, some, List, get_or,
}
use mathlib.Core.Option
use wrpc_sw.Prelude.Int.{ℤ, pos, negsuc, ◌-ℤ◌}
use wrpc_sw.Softpll.Config.{pi_fracbits, board_spll_dac_bits, board_spll_div_bits}
use wrpc_sw.Softpll.Regs.{Regs, spll_enable_tagger, spll_debug}
use wrpc_sw.Softpll.Pi.{Pi, pi_init}
use wrpc_sw.Softpll.LockDet.{LockDet, ld_init}

pub record GainItem : Type 0 where
  pub kp : ℤ
  pub ki : ℤ
  pub shift : ℕ
  pub lock_samples : ℤ

pub record GainSched : Type 0 where
  pub n_stages : ℕ
  pub current_stage : ℕ
  pub stages : List GainItem
  pub locked_d : Bool

-- What a read past the array would give is not defined by C; the model takes zeros.
abbrev pub no_item : GainItem
no_item = record { kp = pos 0; ki = pos 0; shift = 0; lock_samples = pos 0 }

pub record Mpll : Type 0 where
  pub pi : Pi
  pub phase_ld : LockDet
  pub freq_ld : LockDet
  pub gain_sched : Option GainSched
  pub dref_dt : ℤ
  pub dout_dt : ℤ
  pub tag_ref_raw_d : ℤ
  pub tag_out_raw_d2 : ℤ
  pub freq_prelock_gain_boost : ℤ
  pub discard_early_cnt : ℕ
  pub adder_ref : ℤ
  pub adder_out : ℤ
  pub tag_ref : ℤ
  pub tag_ref_d : ℤ
  pub tag_out : ℤ
  pub tag_out_d : ℤ
  pub locked : Bool
  pub phase_shift_target : ℤ
  pub phase_shift_current : ℤ
  pub id_ref : ℕ
  pub id_out : ℕ
  pub sample_n : ℤ
  pub dac_index : ℕ
  pub enabled : Bool
  pub ps_freeze : Bool
  pub vco_freeze : Bool
  pub dbg_src_id : ℕ
  pub lock_start_ms : ℕ
  pub last_phase_lock_duration_ms : ℤ
  pub last_freq_lock_duration_ms : ℤ

-- SPLL_DBG_SRC_MAIN, and SPLL_DBG_SRC_AUX of the channel.
unfoldable pub dbg_src : ℕ → ℕ
dbg_src zero = 1
dbg_src (suc n) = 3 + n % 4

unfoldable pub mpll_init : Mpll → ℕ → ℕ → Regs → Mpll
mpll_init s id_ref id_out r =
    let pi = s.pi in
    let freq_ld = s.freq_ld in
    let phase_ld = s.phase_ld in
    let dac_index = id_out - r.n_chan_ref in
    record s {
      ps_freeze = false;
      vco_freeze = false;
      enabled = false;
      freq_prelock_gain_boost = pos 20;
      id_ref = id_ref;
      id_out = id_out;
      dac_index = dac_index;
      dbg_src_id = dbg_src dac_index;
      gain_sched =
          Option.map (λ (g : GainSched). record g { current_stage = 0; locked_d = false })
            s.gain_sched;
      pi = pi_init (record pi {
        y_min = pos (5 * 2 ^ board_spll_div_bits);
        y_max = pos (2 ^ board_spll_dac_bits) -ℤ pos (5 * 2 ^ board_spll_div_bits);
        anti_windup = true;
        bias = pos (2 ^ (board_spll_dac_bits - 1));
        shift = pi_fracbits - board_spll_div_bits;
        kp = negsuc 1099;
        ki = negsuc 29;
      });
      freq_ld = ld_init (record freq_ld {
        threshold = pos 50;
        lock_samples = pos 50;
        delock_samples = pos 20000;
      });
      phase_ld = ld_init (record phase_ld {
        threshold = pos 1200;
        lock_samples = pos 1000;
        delock_samples = pos 100;
      });
    }

-- The gains of the schedule's first stage, with the schedule reset.
unfoldable pub first_stage : Mpll → Mpll
first_stage s =
    let pi = s.pi in
    let phase_ld = s.phase_ld in
    elim s.gain_sched [
      | none ↦ s
      | some g ↦
          let item = get_or g.stages 0 no_item in
          record s {
            gain_sched = some (record g { current_stage = 0; locked_d = false });
            pi = record pi { kp = item.kp; ki = item.ki; shift = item.shift };
            phase_ld = record phase_ld { lock_samples = item.lock_samples; lock_cnt = pos 0 };
          }
    ]

unfoldable pub mpll_start : Mpll → Regs → Mpll × Regs
mpll_start s r =
    let t = first_stage (record s {
      discard_early_cnt = 10;
      ps_freeze = false;
      vco_freeze = false;
      adder_ref = pos 0;
      adder_out = pos 0;
      tag_ref = negsuc 0;
      tag_out = negsuc 0;
      tag_ref_d = negsuc 0;
      tag_out_d = negsuc 0;
      tag_ref_raw_d = negsuc 0;
      tag_out_raw_d2 = negsuc 0;
      phase_shift_target = pos 0;
      phase_shift_current = pos 0;
      sample_n = pos 0;
      enabled = true;
      locked = false;
      last_freq_lock_duration_ms = negsuc 0;
      last_phase_lock_duration_ms = negsuc 0;
    }) in
    (
      record t {
        pi = pi_init t.pi;
        phase_ld = ld_init t.phase_ld;
        freq_ld = ld_init t.freq_ld;
        lock_start_ms = r.tics;
      },
      spll_debug s.dbg_src_id 6 (pos 1) true
          (spll_enable_tagger s.id_out true (spll_enable_tagger s.id_ref true r)),
    )

unfoldable pub mpll_stop : Mpll → Regs → Mpll × Regs
mpll_stop s r = (record s { enabled = false }, spll_enable_tagger s.id_out false r)
