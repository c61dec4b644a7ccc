-- ===== src/Rxts.antt =====
-- dev/rxts_calibrator.c: the search for the phase at which the receive timestamper's counters change.
-- A round's input is what the hardware says: none if the phase shifter is busy, else whether the fake
-- timestamp has the falling counter ahead. `shift` is what spll_set_phase_shift was last given for
-- channel 0. The clock's period is 8000 ps.
pub mod Scan
pub mod Process
use wrpc_sw.Prelude.{
  ℕ, zero, suc, ◌+◌, ◌-◌, ◌*◌, ◌/◌, ◌%◌, ◌^◌, ◌&&◌, ◌||◌, Bool, true, false, not, Option, none,
  some, ltb, leb, ◌==◌, if◌then◌else◌,
}
use wrpc_sw.Prelude.Int.{ℤ, pos, negsuc, pos_part, ◌+ℤ◌, ◌-ℤ◌, ltb_ℤ, leb_ℤ, i32, tdiv, low_bits}
use wrpc_sw.Storage.Calibration.{
  CalData, Sdbfs, storage_get_calibration_parameter, storage_set_calibration_parameter_and_save,
}

abbrev pub ref_clock_period_ps : ℕ
ref_clock_period_ps = 8000

abbrev pub cal_scan_step : ℕ
cal_scan_step = 100

abbrev pub cal_deglitch_threshold : ℕ
cal_deglitch_threshold = 5

abbrev pub cal_scan_range : ℕ
cal_scan_range = ref_clock_period_ps + 3 * cal_deglitch_threshold * cal_scan_step

abbrev pub default_t24p_phase_transition : ℕ
default_t24p_phase_transition = 2389

abbrev pub calib_retries : ℕ
calib_retries = 1000

abbrev pub calib_t24p_recalibrate_threshold : ℕ
calib_t24p_recalibrate_threshold = 2000

-- 't24p'
abbrev pub cal_param_t24p : ℕ
cal_param_t24p = 0x74323470

pub data TransState : Type 0 where
  wait_inactive got_transition td_done : TransState

-- trans_detect_state
pub record Detector : Type 0 where
  pub state : TransState
  pub sample_count : ℕ
  pub trans_phase : ℤ

abbrev same_bit : Bool → Bool → Bool
same_bit true b = b
same_bit false b = not b

unfoldable pub lookup_from : TransState → Detector → (flip_bit : Bool) → ℤ → Bool → Detector
lookup_from wait_inactive d flip_bit phase polarity =
    let n = if same_bit flip_bit polarity then 0 else ((d.sample_count + 1) % 2 ^ 8) in
    if leb cal_deglitch_threshold n
    then record d { state = got_transition; sample_count = 0 }
    else record d { sample_count = n }
lookup_from got_transition d flip_bit phase polarity =
    if not (same_bit flip_bit polarity)
    then record d { sample_count = 0 }
    else (let n = (d.sample_count + 1) % 2 ^ 8 in
        if leb cal_deglitch_threshold n
        then record {
          state = td_done;
          sample_count = n;
          trans_phase = i32 (phase -ℤ pos (cal_deglitch_threshold * cal_scan_step));
        }
        else record d { sample_count = n })
lookup_from td_done d flip_bit phase polarity = d

unfoldable pub lookup_transition : Detector → Bool → ℤ → Bool → Detector
unfolding lookup_from
lookup_transition d = lookup_from d.state d

pub record Calibrator : Type 0 where
  pub det_rising : Detector
  pub det_falling : Detector
  pub cal_cur_phase : ℤ
  pub shift : ℤ

abbrev idle_detector : Detector
idle_detector = record { state = wait_inactive; sample_count = 0; trans_phase = pos 0 }

unfoldable pub calib_t24p_init : Calibrator
calib_t24p_init = record {
  det_rising = idle_detector;
  det_falling = idle_detector;
  cal_cur_phase = pos 0;
  shift = pos 0;
}

-- `while (phase >= REF_CLOCK_PERIOD_PS) phase -= REF_CLOCK_PERIOD_PS;`, on the number of periods in it.
unfoldable pub subtract_periods : ℕ → ℤ → ℤ
subtract_periods zero p = p
subtract_periods (suc k) p =
    let rest = subtract_periods k (p -ℤ pos ref_clock_period_ps) in
    if leb_ℤ (pos ref_clock_period_ps) p then rest else p

unfoldable pub normalize : ℤ → ℤ
unfolding subtract_periods
normalize p = subtract_periods (pos_part p / ref_clock_period_ps) p

-- The transition, from the phases of the two edges.
unfoldable pub middle : ℤ → ℤ → ℤ
middle rising falling =
    let half = pos (ref_clock_period_ps / 2) in
    let other =
      if ltb_ℤ rising falling
      then i32 (falling -ℤ half)
      else if ltb_ℤ falling rising
      then i32 (falling +ℤ half)
      else pos 0 in
    let t = tdiv (i32 (other +ℤ rising)) (pos 2) in
    let u = if ltb_ℤ t (pos 0) then t +ℤ pos ref_clock_period_ps else t in
    if leb_ℤ (pos ref_clock_period_ps) u then u -ℤ pos ref_clock_period_ps else u

abbrev is_done : TransState → Bool
is_done td_done = true
is_done s = false

-- What rxts_calibration_update returns, 0, -1 or 1, with the value written.
pub data Update : Type 0 where
  scanning : Update
  failed : ℕ → Update
  calibrated : ℕ → Update

abbrev with_phase : Detector → ℤ → Detector
with_phase d p = record d { trans_phase = p }

-- The end of the scan.
unfoldable pub finish_scan : Calibrator → Update × Calibrator
unfolding normalize middle
finish_scan c =
    if not (is_done c.det_rising.state) || not (is_done c.det_falling.state)
    then (failed default_t24p_phase_transition, c)
    else (let r = normalize c.det_rising.trans_phase in
        let f = normalize c.det_falling.trans_phase in
        (
          calibrated (low_bits 32 (middle r f)),
          record c {
            det_rising = with_phase c.det_rising r;
            det_falling = with_phase c.det_falling f;
          },
        ))

unfoldable pub rxts_calibration_update : Calibrator → Option Bool → Update × Calibrator
unfolding lookup_transition finish_scan
rxts_calibration_update c none = (scanning, c)
rxts_calibration_update c (some flip) =
    let c' = record c {
      det_rising = lookup_transition c.det_rising flip c.cal_cur_phase true;
      det_falling = lookup_transition c.det_falling flip c.cal_cur_phase false;
    } in
    if leb_ℤ (pos cal_scan_range) c.cal_cur_phase
    then finish_scan c'
    else (let next = i32 (c.cal_cur_phase +ℤ pos cal_scan_step) in
        (scanning, record c' { cal_cur_phase = next; shift = next }))

-- A round of the loop in calib_t24p_process: the update's input, and whether the link is up after it.
pub record Round : Type 0 where
  pub pulse : Option Bool
  pub link_up : Bool

-- The hardware: what round r finds, with the shift that is set.
abbrev pub Hardware : Type 0
Hardware = ℕ → ℤ → Round

-- The loop with so many retries left, from round r on; none if it gives up.
unfoldable pub calibrate_from : Hardware → ℕ → ℕ → Calibrator → Option Update × Calibrator
unfolding rxts_calibration_update
calibrate_from hw zero r c =
    let (u, c') = rxts_calibration_update c (hw r c.shift).pulse in
    (
      elim u [ scanning ↦ none | failed v ↦ some (failed v) | calibrated v ↦ some (calibrated v) ],
      c',
    )
calibrate_from hw (suc left) r c =
    let (u, c') = rxts_calibration_update c (hw r c.shift).pulse in
    elim u [
      | failed v ↦ (some (failed v), c')
      | calibrated v ↦ (some (calibrated v), c')
      | scanning ↦ elim (hw r c.shift).link_up [
        | true ↦ calibrate_from hw left (suc r) c'
        | false ↦ (none, c')
      ]
    ]

-- The stored value is kept unless it is below v - 2000 or above v + 2000, as uint32_t.
unfoldable pub keeps_stored : (v prev : ℕ) → Bool
keeps_stored v prev =
    not (ltb prev ((v + 2 ^ 32 - calib_t24p_recalibrate_threshold) % 2 ^ 32))
    && not (ltb ((v + calib_t24p_recalibrate_threshold) % 2 ^ 32) prev)

-- The result of calib_t24p_process with the value it writes, where the result is not negative.
unfoldable pub choose_value :
    (fs : Sdbfs) → Option Update → CalData → fs.Store → Option ℕ × (CalData × fs.Store)
unfolding keeps_stored
choose_value fs none d s = (none, (d, s))
choose_value fs (some scanning) d s = (none, (d, s))
choose_value fs (some (failed v)) d s = (storage_get_calibration_parameter cal_param_t24p d, (d, s))
choose_value fs (some (calibrated v)) d s =
    let save = (storage_set_calibration_parameter_and_save fs cal_param_t24p v d s).1 in
    elim (storage_get_calibration_parameter cal_param_t24p d) [
      | none ↦ (some v, save)
      | some prev ↦ if keeps_stored v prev then (some prev, (d, s)) else (some v, save)
    ]

unfoldable pub calib_t24p_process :
    (fs : Sdbfs)
    → Hardware
    → Calibrator
    → CalData
    → fs.Store
    → Option ℕ × (Calibrator × (CalData × fs.Store))
unfolding calibrate_from choose_value
calib_t24p_process fs hw c d s =
    let (u, c') = calibrate_from hw (calib_retries + 1) 0 c in
    let (value, rest) = choose_value fs u d s in (value, (c', rest))

-- The network device's phase_transition afterwards, after a calibration and after a load.
unfoldable pub set_phase_transition : ℕ → Option ℕ → ℕ
set_phase_transition phase_transition none = phase_transition
set_phase_transition phase_transition (some v) = v

unfoldable pub calib_t24p :
    (fs : Sdbfs)
    → Hardware
    → Calibrator
    → CalData
    → fs.Store
    → ℕ
    → ℕ × (Option ℕ × (Calibrator × (CalData × fs.Store)))
unfolding calib_t24p_process set_phase_transition
calib_t24p fs hw c d s phase_transition =
    let result = calib_t24p_process fs hw c d s in
    (set_phase_transition phase_transition result.0, result)

unfoldable pub calib_t24p_load : CalData → ℕ → ℕ
unfolding set_phase_transition
calib_t24p_load d phase_transition =
    set_phase_transition phase_transition (storage_get_calibration_parameter cal_param_t24p d)
