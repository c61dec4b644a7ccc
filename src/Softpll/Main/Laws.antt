-- ===== src/Softpll/Main/Laws.antt =====
-- What mpll_update writes to the DAC, that its frequency lock is final, and its gain schedule.
use wrpc_sw.Prelude.{false, ℕ, ◌≡◌, refl, ◌⊎◌, true, arith, if◌then◌else◌}
use wrpc_sw.Prelude.Int.{ℤ, ◌-ℤ◌, ◌≤ℤ◌, ◌<ℤ◌, i32}
use wrpc_sw.Softpll.Regs.{Regs, spll_debug}
use wrpc_sw.Softpll.Pi.{pi_update}
use wrpc_sw.Softpll.Pi.Bounds.{pi_update_bounds, y-pi_update}
use wrpc_sw.Softpll.LockDet.{LockDet, ld_update, ld_init}
use wrpc_sw.Softpll.LockDet.Laws.{ld_update_never_unlocks}
use wrpc_sw.Softpll.Main.State.{Mpll, mpll_init}
use wrpc_sw.Softpll.Main.Gains.{mpll_handle_gain_schedule, run_schedule, use_stage}
use wrpc_sw.Softpll.Main.Update.{
  capture, track_ref, track_out, discard_early, align_adders, detect_freq, mpll_error, mpll_drive,
  debug_sample, dac_word, wrap_adders, shift_phase, detect_phase, mpll_sample, mpll_update,
}

-- What the blocks before the frequency detector leave alone.
pub record SameCore (s t : Mpll) : Type 0 where
  pub freq : t.freq_ld ≡ s.freq_ld
  pub pi : t.pi ≡ s.pi
  pub locked : t.locked ≡ s.locked
  pub vco_freeze : t.vco_freeze ≡ s.vco_freeze
  pub dac_index : t.dac_index ≡ s.dac_index
  pub sched : t.gain_sched ≡ s.gain_sched

pub captured : Mpll → ℤ → ℕ → Mpll
captured s tag source = track_out (track_ref (capture s tag source))

captured-SameCore : (s : Mpll) (tag : ℤ) (source : ℕ) → SameCore s (captured s tag source)
unfolding captured track_out track_ref capture
captured-SameCore s tag source = ground arith

discard_early-SameCore : (s : Mpll) → SameCore s (discard_early s)
unfolding discard_early align_adders
discard_early-SameCore s = ground arith

freq-shift_wrap :
    (s : Mpll)
    → ((shift_phase (wrap_adders s)).freq_ld ≡ s.freq_ld)
      × ((shift_phase (wrap_adders s)).pi ≡ s.pi)
unfolding shift_phase wrap_adders
freq-shift_wrap s = ground arith

-- The phase detector and the gain schedule change the gains, not the controller's output.
freq-detect_phase :
    (s : Mpll) (e : ℤ) (r : Regs)
    → ((detect_phase s e r).0.freq_ld ≡ s.freq_ld)
      × ((detect_phase s e r).0.pi.y ≡ s.pi.y)
      × ((detect_phase s e r).1.dac_main ≡ r.dac_main)
unfolding detect_phase mpll_handle_gain_schedule run_schedule use_stage spll_debug
freq-detect_phase s e r = ground arith

dac-debug_sample : (s : Mpll) (e y : ℤ) (r : Regs) → (debug_sample s e y r).dac_main ≡ r.dac_main
unfolding debug_sample spll_debug
dac-debug_sample s e y r = refl

-- The controller's input for a pair of tags.
sample_error : Mpll → Regs → ℤ
sample_error s r = mpll_error (detect_freq (discard_early s) r)

drive_lem :
    (s : Mpll) (err : ℤ) (r : Regs)
    → let (s', r') = mpll_drive s err r in
      (s'.freq_ld ≡ s.freq_ld)
      × (s'.pi.y ≡ (pi_update s.pi err).1)
      × (r'.dac_main
          ≡ (if s.vco_freeze then r.dac_main else dac_word (pi_update s.pi err).1 s.dac_index))
unfolding mpll_drive
drive_lem s err r = ground (
  arith,
  y-pi_update s.pi err,
  dac-debug_sample s err (pi_update s.pi err).1 (record r {
    dac_main = if s.vco_freeze then r.dac_main else dac_word (pi_update s.pi err).1 s.dac_index;
  }),
)

-- A pair of tags: the detector that decides, the output and the DAC.
sample_lem :
    (s : Mpll) (r : Regs)
    → let (s', r', b) = mpll_sample s r in
      let y = (pi_update s.pi (sample_error s r)).1 in
      (s'.freq_ld ≡ (detect_freq (discard_early s) r).freq_ld)
      × (s'.pi.y ≡ y)
      × (r'.dac_main ≡ (if s.vco_freeze then r.dac_main else dac_word y s.dac_index))
      × (b ≡ true → (s'.locked ≡ true) × (s'.freq_ld.locked ≡ true))
unfolding mpll_sample sample_error detect_freq
sample_lem s r = ground (
  arith,
  discard_early-SameCore s,
  drive_lem s1 err r,
  freq-shift_wrap (mpll_drive s1 err r).0,
  freq-detect_phase (shift_phase (wrap_adders (mpll_drive s1 err r).0)) err (mpll_drive s1 err r).1,
)
  where
    s1 : Mpll
    s1 = detect_freq (discard_early s) r

    err : ℤ
    err = mpll_error s1

-- Where the controller's y_min and y_max are ordered, mpll_update leaves the main DAC's register
-- alone or, with the VCO not frozen, writes the controller's output for this PLL's DAC, which lies
-- between y_min and y_max.
pub mpll_update_dac :
    (s : Mpll) (tag : ℤ) (source : ℕ) (r : Regs)
    → s.pi.y_min ≤ℤ s.pi.y_max
    → let (s', r', b) = mpll_update s tag source r in
      (r'.dac_main ≡ r.dac_main)
      ⊎ ((s.vco_freeze ≡ false)
          × (r'.dac_main ≡ dac_word s'.pi.y s.dac_index)
          × (s.pi.y_min ≤ℤ s'.pi.y)
          × (s'.pi.y ≤ℤ s.pi.y_max))
unfolding mpll_update captured
mpll_update_dac s tag source r h = ground (
  arith,
  captured-SameCore s tag source,
  sample_lem (captured s tag source) r,
  pi_update_bounds (captured s tag source).pi (sample_error (captured s tag source) r),
)

-- SPLL_LOCKED is returned by an enabled PLL only with its lock flag set and its frequency locked.
pub mpll_update_locked :
    (s : Mpll) (tag : ℤ) (source : ℕ) (r : Regs)
    → s.enabled ≡ true
    → (mpll_update s tag source r).2 ≡ true
    → let s' = (mpll_update s tag source r).0 in (s'.locked ≡ true) × (s'.freq_ld.locked ≡ true)
unfolding mpll_update captured
mpll_update_locked s tag source r h e = ground (arith, sample_lem (captured s tag source) r)

-- The frequency detector can lock but has no way back: it would unlock above the count it can reach.
pub record FreqHeld (s : Mpll) : Type 0 where
  pub inverted : s.freq_ld.lock_samples <ℤ s.freq_ld.delock_samples
  pub reachable : s.freq_ld.lock_cnt ≤ℤ s.freq_ld.lock_samples

ld_samples :
    (ld : LockDet) (y : ℤ)
    → ((ld_update ld y).0.lock_samples ≡ ld.lock_samples)
      × ((ld_update ld y).0.delock_samples ≡ ld.delock_samples)
unfolding ld_update
ld_samples ld y = ground arith

-- mpll_init leaves a frequency detector that can never unlock (lock_samples 50, delock_samples
-- 20000).
pub mpll_init-FreqHeld :
    (s : Mpll) (id_ref id_out : ℕ) (r : Regs) → FreqHeld (mpll_init s id_ref id_out r)
unfolding mpll_init ld_init
mpll_init-FreqHeld s id_ref id_out r = ground arith

-- With a frequency detector whose lock_samples is below its delock_samples and whose count is not above
-- lock_samples, as mpll_init leaves it (50 and 20000), no mpll_update ever loses the frequency lock,
-- whatever the tags: the detector stays such a one, and a set lock flag stays set.
pub mpll_update-FreqHeld :
    (s : Mpll) (tag : ℤ) (source : ℕ) (r : Regs)
    → FreqHeld s
    → FreqHeld (mpll_update s tag source r).0
      × ((s.freq_ld.locked ≡ false) ⊎ ((mpll_update s tag source r).0.freq_ld.locked ≡ true))
unfolding mpll_update captured detect_freq
mpll_update-FreqHeld s tag source r h = ground (
  arith,
  captured-SameCore s tag source,
  discard_early-SameCore (captured s tag source),
  sample_lem (captured s tag source) r,
  ld_update_never_unlocks (discard_early t).freq_ld
      (i32 ((discard_early t).dout_dt -ℤ (discard_early t).dref_dt)),
  ld_samples (discard_early t).freq_ld
      (i32 ((discard_early t).dout_dt -ℤ (discard_early t).dref_dt)),
)
  where
    t : Mpll
    t = captured s tag source
