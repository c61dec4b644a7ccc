-- ===== src/Softpll/Main/Update.antt =====
-- mpll_update and update_dtag_dt of softpll/spll_main.c, block by block. spll_log_dac is empty in
-- this build.
use wrpc_sw.Prelude.{
  ℕ, ◌+◌, ◌-◌, ◌*◌, ◌%◌, ◌^◌, Bool, true, false, not, ◌&&◌, ◌||◌, leb, ◌==◌, if◌then◌else◌,
}
use wrpc_sw.Prelude.Int.{
  ℤ, pos, negsuc, ◌+ℤ◌, ◌-ℤ◌, ◌*ℤ◌, ltb_ℤ, leb_ℤ, eqb_ℤ, i32, sar, neg, low_bits,
}
use wrpc_sw.Softpll.Config.{tag_bits, hpll_n, reverse_spll}
use wrpc_sw.Softpll.Regs.{Regs, spll_debug}
use wrpc_sw.Softpll.Pi.{pi_update}
use wrpc_sw.Softpll.LockDet.{ld_update}
use wrpc_sw.Softpll.Main.State.{Mpll}
use wrpc_sw.Softpll.Main.Gains.{mpll_handle_gain_schedule}

abbrev pub mpll_tag_wraparound : ℕ
mpll_tag_wraparound = 100000000

-- The distance from the previous tag and the tag to remember, or what was there for the same tag.
unfoldable pub update_dtag_dt : ℤ → ℤ → ℤ → ℤ × ℤ
update_dtag_dt dtag_dt tag tag_d =
    if eqb_ℤ tag tag_d
    then (dtag_dt, tag_d)
    else let d = i32 (tag -ℤ tag_d) in
      (if ltb_ℤ d (pos 0) then i32 (d +ℤ pos (2 ^ tag_bits)) else d, tag)

-- The adder with a wrap of its tag counted in.
unfoldable pub unwrap_tag : ℤ → ℤ → ℤ → ℤ
unwrap_tag adder tag tag_d =
    if leb_ℤ (pos 0) tag_d && ltb_ℤ tag tag_d then i32 (adder +ℤ pos (2 ^ tag_bits)) else adder

unfoldable pub capture : Mpll → ℤ → ℕ → Mpll
capture s tag source = record s {
  tag_ref = if source == s.id_ref then tag else s.tag_ref;
  tag_out = if source == s.id_out then tag else s.tag_out;
}

unfoldable pub track_ref : Mpll → Mpll
track_ref s =
    let (dt, raw) = update_dtag_dt s.dref_dt s.tag_ref s.tag_ref_raw_d in
    if leb_ℤ (pos 0) s.tag_ref
    then record s {
      dref_dt = dt;
      tag_ref_raw_d = raw;
      adder_ref = unwrap_tag s.adder_ref s.tag_ref s.tag_ref_d;
      tag_ref_d = s.tag_ref;
    }
    else s

unfoldable pub track_out : Mpll → Mpll
track_out s =
    let (dt, raw) = update_dtag_dt s.dout_dt s.tag_out s.tag_out_raw_d2 in
    if leb_ℤ (pos 0) s.tag_out
    then record s {
      dout_dt = dt;
      tag_out_raw_d2 = raw;
      adder_out = unwrap_tag s.adder_out s.tag_out s.tag_out_d;
      tag_out_d = s.tag_out;
    }
    else s

-- `(delta >> HPLL_N) << HPLL_N`
unfoldable pub whole_periods : ℤ → ℤ
whole_periods delta = i32 (sar delta hpll_n *ℤ pos (2 ^ hpll_n))

-- The block at `discard_early_cnt == 1`: the two adders, brought within a period of each other.
unfoldable pub align_adders : Mpll → Mpll
align_adders s =
    let adj_ref = i32 (s.tag_ref +ℤ s.adder_ref) in
    let adj_out = i32 (s.tag_out +ℤ s.adder_out) in
    let ahead = ltb_ℤ adj_out adj_ref in
    let ref =
      if ahead
      then i32 (s.adder_ref -ℤ whole_periods (i32 (adj_ref -ℤ adj_out)))
      else s.adder_ref in
    let out =
      if ahead
      then s.adder_out
      else i32 (s.adder_out -ℤ whole_periods (i32 (adj_out -ℤ adj_ref))) in
    if ltb_ℤ ref (pos 0) || ltb_ℤ out (pos 0)
    then record s {
      adder_ref = i32 (ref +ℤ pos mpll_tag_wraparound);
      adder_out = i32 (out +ℤ pos mpll_tag_wraparound);
    }
    else record s { adder_ref = ref; adder_out = out }

unfoldable pub discard_early : Mpll → Mpll
discard_early s =
    let t = if s.discard_early_cnt == 1 then align_adders s else s in
    record t { discard_early_cnt = s.discard_early_cnt - 1 }

-- The frequency detector on this pair of tags, and the error that it chooses.
unfoldable pub detect_freq : Mpll → Regs → Mpll
detect_freq s r =
    let ld = (ld_update s.freq_ld (i32 (s.dout_dt -ℤ s.dref_dt))).0 in
    record s {
      freq_ld = ld;
      last_freq_lock_duration_ms =
          if ld.lock_changed && ld.locked
          then i32 (pos r.tics -ℤ pos s.lock_start_ms)
          else s.last_freq_lock_duration_ms;
    }

-- Everything above the low HPLL_N bits masked out, and the sign extended.
unfoldable pub mask_error : ℤ → ℤ
mask_error err =
    let low = low_bits hpll_n err in
    if leb (2 ^ (hpll_n - 1)) low then negsuc (2 ^ hpll_n - 1 - low) else pos low

unfoldable pub mpll_error : Mpll → ℤ
mpll_error s =
    if s.freq_ld.locked
    then mask_error (i32 (i32 (i32 (s.adder_ref +ℤ s.tag_ref) -ℤ s.adder_out) -ℤ s.tag_out))
    else i32 (i32 (neg s.freq_prelock_gain_boost) *ℤ i32 (s.dout_dt -ℤ s.dref_dt))

-- SPLL_DAC_MAIN_VALUE_W(y) | SPLL_DAC_MAIN_DAC_SEL_W(dac_index), on disjoint bits.
unfoldable pub dac_word : ℤ → ℕ → ℕ
dac_word y dac_index = low_bits 24 y + dac_index % 16 * 2 ^ 24

-- The eight debug words of a sample.
unfoldable pub debug_sample : Mpll → ℤ → ℤ → Regs → Regs
debug_sample s err y r =
    let d = s.dbg_src_id in
    spll_debug d 0 y true (
      spll_debug d 5 s.sample_n false (
        spll_debug d 1 err false (
          spll_debug d 2 s.dout_dt false (
            spll_debug d 3 s.dref_dt false (
              spll_debug d 7 (pos r.tics) false (
                spll_debug d 9 s.phase_shift_target false
                  (spll_debug d 8 s.phase_shift_current false r)))))))

-- The controller, the DAC and the debug words.
unfoldable pub mpll_drive : Mpll → ℤ → Regs → Mpll × Regs
mpll_drive s err r =
    let (pi, y) = pi_update s.pi err in
    (
      record s { pi = pi; sample_n = i32 (s.sample_n +ℤ pos 1) },
      debug_sample s err y
          (record r { dac_main = if s.vco_freeze then r.dac_main else dac_word y s.dac_index }),
    )

-- Both tags are used up, and both adders go down where both are large.
unfoldable pub wrap_adders : Mpll → Mpll
wrap_adders s =
    let high = pos (2 * mpll_tag_wraparound) in
    let both = ltb_ℤ high s.adder_ref && ltb_ℤ high s.adder_out in
    record s {
      tag_out = negsuc 0;
      tag_ref = negsuc 0;
      adder_ref = if both then i32 (s.adder_ref -ℤ pos mpll_tag_wraparound) else s.adder_ref;
      adder_out = if both then i32 (s.adder_out -ℤ pos mpll_tag_wraparound) else s.adder_out;
    }

unfoldable pub shift_phase : Mpll → Mpll
shift_phase s =
    let up = i32 (s.adder_ref +ℤ pos 1) in
    let down = i32 (s.adder_ref -ℤ pos 1) in
    if s.locked && not s.ps_freeze
    then if ltb_ℤ s.phase_shift_current s.phase_shift_target
      then record s {
        phase_shift_current = i32 (s.phase_shift_current +ℤ pos 1);
        adder_ref = if not reverse_spll then up else down;
      }
      else if ltb_ℤ s.phase_shift_target s.phase_shift_current
      then record s {
        phase_shift_current = i32 (s.phase_shift_current -ℤ pos 1);
        adder_ref = if not reverse_spll then down else up;
      }
      else s
    else s

-- The phase detector, its debug event, and the gain schedule.
unfoldable pub detect_phase : Mpll → ℤ → Regs → Mpll × Regs
detect_phase s err r =
    let ld = (ld_update s.phase_ld err).0 in
    let t = record s {
      phase_ld = ld;
      last_phase_lock_duration_ms =
          if ld.lock_changed && ld.locked
          then i32 (pos r.tics -ℤ pos s.lock_start_ms)
          else s.last_phase_lock_duration_ms;
    } in
    mpll_handle_gain_schedule t (
      if ld.lock_changed
      then spll_debug s.dbg_src_id 6 (if ld.locked then pos 2 else pos 4) true r
      else r)

-- The block that runs when both tags are there; the flag is `return SPLL_LOCKED`.
unfoldable pub mpll_sample : Mpll → Regs → Mpll × Regs × Bool
mpll_sample s0 r0 =
    let s1 = detect_freq (discard_early s0) r0 in
    let err = mpll_error s1 in
    let (s2, r2) = mpll_drive s1 err r0 in
    let s3 = shift_phase (wrap_adders s2) in
    if s3.freq_ld.locked
    then (let (s4, r4) = detect_phase s3 err r2 in (s4, r4, s4.locked))
    else (s3, r2, false)

unfoldable pub mpll_update : Mpll → ℤ → ℕ → Regs → Mpll × Regs × Bool
mpll_update s tag source r =
    if not s.enabled
    then (s, r, true)
    else let t = track_out (track_ref (capture s tag source)) in
      if leb_ℤ (pos 0) t.tag_ref && leb_ℤ (pos 0) t.tag_out then mpll_sample t r else (t, r, false)
