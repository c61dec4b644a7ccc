-- ===== src/Softpll/Helper.antt =====
-- The helper PLL of softpll/spll_helper.c, as CONFIG_WR_NODE builds it, without
-- CONFIG_IGNORE_HPLL. helper_switch_reference has an empty body.
pub mod Tracking
use wrpc_sw.Prelude.{
  ℕ, zero, suc, ◌+◌, ◌-◌, ◌*◌, ◌/◌, ◌%◌, ◌^◌, ◌≤◌, ◌<◌, min, bit_and, bit_or, ◌≡◌, refl, sym, ap,
  ◌∙◌, ◌≢◌, ◌↔◌, ◌⊎◌, inl, inr, Bool, true, false, not, ◌&&◌, ◌||◌, Option, none, some, List, [],
  ◌∷◌, ◌++◌, map, arith, length, get_or, set, get_elem?, ltb, leb, ◌==◌, if◌then◌else◌,
}
use wrpc_sw.Prelude.Int.{
  ℤ, pos, negsuc, pos_part, neg_part, ◌+ℤ◌, ◌-ℤ◌, ◌*ℤ◌, ◌≤ℤ◌, ◌<ℤ◌, ltb_ℤ, leb_ℤ, eqb_ℤ, i32, i64,
  sar, tdiv, neg, low_bits, Fits32, i32_of_Fits32, +ℤ_parts, -ℤ_parts, eq_of_parts,
}
use wrpc_sw.Softpll.Config.{
  tag_bits, hpll_n, pi_fracbits, board_spll_dac_bits, board_spll_div_bits, reverse_spll,
}
use wrpc_sw.Softpll.Regs.{Regs, spll_enable_tagger}
use wrpc_sw.Softpll.Pi.{Pi, pi_update, pi_init}
use wrpc_sw.Softpll.LockDet.{LockDet, ld_update, ld_init}

pub record Helper : Type 0 where
  pub p_adder : ℤ
  pub p_setpoint : ℤ
  pub tag_d0 : ℤ
  pub ref_src : ℕ
  pub sample_n : ℤ
  pub pi : Pi
  pub ld : LockDet
  pub lock_start_ms : ℕ
  pub last_lock_duration_ms : ℤ

abbrev pub helper_tag_wraparound : ℕ
helper_tag_wraparound = 100000000

abbrev pub helper_error_clamp : ℕ
helper_error_clamp = 150000

unfoldable pub helper_very_init : Helper → Helper
helper_very_init s =
    let pi = s.pi in
    let ld = s.ld in
    record s {
      pi = record pi {
        y_min = pos (5 * 2 ^ board_spll_div_bits);
        y_max = pos (2 ^ board_spll_dac_bits) -ℤ pos (5 * 2 ^ board_spll_div_bits);
        kp = negsuc 149;
        ki = negsuc 1;
        shift = pi_fracbits - board_spll_div_bits;
        anti_windup = true;
      };
      ld = record ld { threshold = pos 200; lock_samples = pos 10000; delock_samples = pos 100 };
    }

unfoldable pub helper_init : Helper → ℕ → Helper
helper_init s ref_channel = record s { ref_src = ref_channel }

-- The error, kept within HELPER_ERROR_CLAMP on both sides.
unfoldable pub clamp_error : ℤ → ℤ
clamp_error err =
    let low =
      if ltb_ℤ err (neg (pos helper_error_clamp)) then neg (pos helper_error_clamp) else err in
    if ltb_ℤ (pos helper_error_clamp) low then pos helper_error_clamp else low

-- The adder with the wrap of a tag below the last one counted in.
unfoldable pub helper_unwrap : Helper → ℤ → ℤ
helper_unwrap s tag =
    if ltb_ℤ tag s.tag_d0 then i32 (s.p_adder +ℤ pos (2 ^ tag_bits)) else s.p_adder

-- The wrap-around block: the adder and the setpoint after it.
unfoldable pub helper_wrap : ℤ → ℤ → ℤ → ℤ × ℤ
helper_wrap tag adder setpoint =
    if ltb_ℤ (pos helper_tag_wraparound) (i32 (tag +ℤ adder))
      && ltb_ℤ (pos helper_tag_wraparound) setpoint
    then (i32 (adder -ℤ pos helper_tag_wraparound), i32 (setpoint -ℤ pos helper_tag_wraparound))
    else (adder, setpoint)

-- The tag bookkeeping for a tag that is not the first, and the error that it gives.
unfoldable pub helper_track : Helper → ℤ → Helper × ℤ
helper_track s tag =
    let adder = helper_unwrap s tag in
    let err = i32 (i32 (tag +ℤ adder) -ℤ s.p_setpoint) in
    let (adder', setpoint) = helper_wrap tag adder s.p_setpoint in
    (
      record s { p_adder = adder'; p_setpoint = i32 (setpoint +ℤ pos (2 ^ hpll_n)); tag_d0 = tag },
      clamp_error err,
    )

-- What follows the bookkeeping: the controller, the DAC and the lock detector.
unfoldable pub helper_drive : Helper → ℤ → Regs → Helper × Regs
helper_drive s err r =
    let (pi, y) = pi_update s.pi err in
    let ld = (ld_update s.ld err).0 in
    (
      record s {
        pi = pi;
        ld = ld;
        last_lock_duration_ms =
            if ld.lock_changed && ld.locked
            then i32 (pos r.tics -ℤ pos s.lock_start_ms)
            else s.last_lock_duration_ms;
      },
      record r { dac_hpll = low_bits 32 y },
    )

unfoldable pub helper_update : Helper → ℤ → ℕ → Regs → Helper × Regs
unfolding helper_track helper_drive
helper_update s tag source r =
    if not (source == s.ref_src)
    then (s, r)
    else if ltb_ℤ s.tag_d0 (pos 0)
    then (record s { p_setpoint = tag; tag_d0 = tag }, r)
    else let (s', err) = helper_track s tag in helper_drive s' err r

unfoldable pub helper_start : Helper → Regs → Helper × Regs
helper_start s r =
    let pi = s.pi in
    (
      record s {
        p_setpoint = pos 0;
        p_adder = pos 0;
        sample_n = pos 0;
        tag_d0 = negsuc 0;
        last_lock_duration_ms = negsuc 0;
        pi = pi_init (record pi { bias = if not reverse_spll then pi.y_max else pi.y_min });
        ld = ld_init s.ld;
        lock_start_ms = r.tics;
      },
      spll_enable_tagger s.ref_src true r,
    )
