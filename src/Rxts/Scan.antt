-- ===== src/Rxts/Scan.antt =====
-- The scan of dev/rxts_calibrator.c on a timestamper whose counters change once up and once down in
-- each period of the clock.
use wrpc_sw.Prelude.{
  ℕ, zero, suc, ◌+◌, ◌-◌, ◌*◌, ◌/◌, ◌%◌, ◌≤◌, ◌<◌, ◌≡◌, refl, sym, ap, ap₂, Bool-cases, inl, inr,
  dec_lt, ◌∙◌, Bool, true, false, none, some, ltb, leb, ◌==◌, ==_iff, if◌then◌else◌, arith,
}
use wrpc_sw.Prelude.Int.{pos, pos_part, ◌+ℤ◌, ◌-ℤ◌, tdiv, i32}
use wrpc_sw.Prelude.Ranges.{holds_up_to, holds_up_to-lt}
use wrpc_sw.Rxts.{
  Detector, Calibrator, Update, scanning, failed, calibrated, Hardware, lookup_transition,
  calib_t24p_init, rxts_calibration_update, calibrate_from, calib_retries,
}

-- The bit at the k-th of the steps, of which a period has 80, if it rises at step q.
abbrev level : ℕ → ℕ → Bool
level q k = ltb ((k + 80 - q) % 80) 40

-- A detector after the samples k, k + 1, ..., n of them.
detect : ℕ → Bool → ℕ → ℕ → Detector → Detector
detect q polarity k zero d = d
detect q polarity k (suc n) d =
    detect q polarity (suc k) n (lookup_transition d (level q k) (pos (100 * k)) polarity)

-- The calibrator after k samples.
scanned : ℕ → ℕ → Calibrator
unfolding detect
scanned q k = record {
  det_rising = detect q true 0 k calib_t24p_init.det_rising;
  det_falling = detect q false 0 k calib_t24p_init.det_falling;
  cal_cur_phase = pos (100 * k);
  shift = pos (100 * k);
}

abbrev value_is : ℕ → Update → Bool
value_is v scanning = false
value_is v (failed w) = false
value_is v (calibrated w) = v == w

abbrev found_at : ℕ → ℕ
found_at q = 100 * ((q + 79) % 80)

-- The last round, for each of the 80 steps.
abbrev finds : ℕ → Bool
finds q = value_is (found_at q) (rxts_calibration_update (scanned q 95) (some (level q 95))).0

scan_table : holds_up_to finds 80 ≡ true
unfolding holds_up_to scanned rxts_calibration_update calib_t24p_init i32 ◌+ℤ◌ tdiv ◌-ℤ◌
scan_table = refl

value_lem : (v : ℕ) (u : Update) → value_is v u ≡ true → u ≡ calibrated v
value_lem v scanning e = absurd (cc)
value_lem v (failed w) e = absurd (cc)
value_lem v (calibrated w) e = ap calibrated (sym ((==_iff v w).0 e))

ends :
    (q : ℕ)
    → q < 80
    → (rxts_calibration_update (scanned q 95) (some (level q 95))).0 ≡ calibrated (found_at q)
ends q h = value_lem (found_at q) _ (holds_up_to-lt finds 80 q h scan_table)

detect_snoc :
    (q : ℕ) (polarity : Bool) (k n : ℕ) (d : Detector)
    → detect q polarity k (suc n) d
      ≡ lookup_transition (detect q polarity k n d) (level q (k + n)) (pos (100 * (k + n))) polarity
unfolding detect
detect_snoc q polarity k zero d =
    let e : k ≡ k + 0 = omega arith in
    ap (λ j. lookup_transition d (level q j) (pos (100 * j)) polarity) e
detect_snoc q polarity k (suc n) d =
    let e : suc k + n ≡ k + suc n = omega arith in
    detect_snoc q polarity (suc k) n (lookup_transition d (level q k) (pos (100 * k)) polarity)
    ∙ ap
        (λ j.
          lookup_transition (detect q polarity k (suc n) d) (level q j) (pos (100 * j)) polarity)
        e

next_phase : (k : ℕ) → k < 95 → i32 (pos (100 * k) +ℤ pos 100) ≡ pos (100 * suc k)
unfolding i32 ◌+ℤ◌
next_phase k h = ground arith

sampled :
    (q : ℕ) (polarity : Bool) (k : ℕ) (d : Detector)
    → lookup_transition (detect q polarity 0 k d) (level q k) (pos (100 * k)) polarity
      ≡ detect q polarity 0 (suc k) d
sampled q polarity k d =
    let e : k ≡ 0 + k = omega arith in
    ap (λ j. lookup_transition (detect q polarity 0 k d) (level q j) (pos (100 * j)) polarity) e
    ∙ sym (detect_snoc q polarity 0 k d)

-- A sample before the last.
scans :
    (q k : ℕ)
    → k < 95
    → rxts_calibration_update (scanned q k) (some (level q k)) ≡ (scanning, scanned q (suc k))
unfolding scanned rxts_calibration_update
scans q k h =
    let more : leb 9500 (100 * k + 0) ≡ false = ground arith in
    rw (more, next_phase k h)
      (ap₂
        (λ r f. (
          scanning,
          record {
            det_rising = r;
            det_falling = f;
            cal_cur_phase = pos (100 * suc k);
            shift = pos (100 * suc k);
          },
        ))
        (sampled q true k calib_t24p_init.det_rising)
        (sampled q false k calib_t24p_init.det_falling))

-- The rounds, of n from r on, in which the shifter is not busy.
abbrev pub idle : (ℕ → Bool) → ℕ → ℕ → ℕ
idle busy r zero = 0
idle busy r (suc n) = (if busy r then 0 else 1) + idle busy (suc r) n

-- The bit rises where the shift is `edge`, and falls half a period later.
abbrev pub timestamper : (edge : ℕ) → (busy : ℕ → Bool) → Hardware
timestamper edge busy r shift = record {
  pulse = if busy r then none else some (ltb ((pos_part shift + 8000 - edge) % 8000) 4000);
  link_up = true;
}

abbrev step_of : ℕ → ℕ
step_of edge = (edge + 99) / 100 % 80

level_lem :
    (edge k : ℕ)
    → edge < 8000
    → k < 96
    → ltb ((100 * k + 8000 - edge) % 8000) 4000 ≡ level (step_of edge) k
level_lem edge k h l = ground arith

stops :
    (hw : Hardware) (left r v : ℕ) (c : Calibrator)
    → (rxts_calibration_update c (hw r c.shift).pulse).0 ≡ calibrated v
    → (calibrate_from hw left r c).0 ≡ some (calibrated v)
unfolding calibrate_from
stops hw zero r v c e = ground (arith, e)
stops hw (suc left) r v c e = ground (arith, e)

continues :
    (hw : Hardware) (left r : ℕ) (c c' : Calibrator)
    → rxts_calibration_update c (hw r c.shift).pulse ≡ (scanning, c')
    → (hw r c.shift).link_up ≡ true
    → calibrate_from hw (suc left) r c ≡ calibrate_from hw left (suc r) c'
unfolding calibrate_from
continues hw left r c c' e u = ground (arith, e, u)

module _ (edge : ℕ) (h : edge < 8000) (busy : ℕ → Bool) where
  hw : Hardware
  hw = timestamper edge busy

  q : ℕ
  q = step_of edge

  samples :
      (r k : ℕ) → k < 96 → busy r ≡ false → (hw r (scanned q k).shift).pulse ≡ some (level q k)
  unfolding hw q scanned
  samples r k l b = rw (b, level_lem edge k h l) refl

  waits : (r : ℕ) (c : Calibrator) → busy r ≡ true → (hw r c.shift).pulse ≡ none
  unfolding hw
  waits r c b = rw b refl

  idles : (k : ℕ) → rxts_calibration_update (scanned q k) none ≡ (scanning, scanned q k)
  unfolding rxts_calibration_update
  idles k = refl

  up : (r k : ℕ) → (hw r (scanned q k).shift).link_up ≡ true
  unfolding hw
  up r k = refl

  last_sample :
      (left r : ℕ)
      → busy r ≡ false
      → (calibrate_from hw left r (scanned q 95)).0 ≡ some (calibrated (found_at q))
  last_sample left r b = stops hw left r (found_at q) (scanned q 95) (
      ap (λ p. (rxts_calibration_update (scanned q 95) p).0) (samples r 95 (omega arith) b)
      ∙ ends q (unfold q in omega arith))

  finishes :
      (left r k : ℕ)
      → k < 96
      → 96 ≤ k + idle busy r (suc left)
      → (calibrate_from hw left r (scanned q k)).0 ≡ some (calibrated (found_at q))
  finishes zero r k l e = elim (Bool-cases (busy r)) [
    | inl b ↦ absurd (ground (arith, b))
    | inr b ↦
        let last : k ≡ 95 = ground (arith, b) in
        ap (λ j. (calibrate_from hw 0 r (scanned q j)).0) last ∙ last_sample 0 r b
  ]
  finishes (suc left) r k l e = elim (Bool-cases (busy r)) [
    | inl b ↦
        let same = ap (rxts_calibration_update (scanned q k)) (waits r (scanned q k) b) in
        ap (λ x. x.0) (continues hw left r (scanned q k) (scanned q k) (same ∙ idles k) (up r k))
        ∙ finishes left (suc r) k l (ground (arith, b))
    | inr b ↦ elim (dec_lt k 95) [
      | no n ↦
          let last : k ≡ 95 = omega arith in
          ap (λ j. (calibrate_from hw (suc left) r (scanned q j)).0) last
          ∙ last_sample (suc left) r b
      | yes y ↦
          let taken = ap (rxts_calibration_update (scanned q k)) (samples r k l b) in
          ap (λ x. x.0)
            (continues hw left r (scanned q k) (scanned q (suc k)) (taken ∙ scans q k y) (up r k))
          ∙ finishes left (suc r) (suc k) (omega arith) (ground (arith, b))
    ]
  ]

found_bounds :
    (edge : ℕ)
    → edge < 8000
    → let v = found_at (step_of edge) in
      (v < 8000) × (0 < (edge + 8000 - v) % 8000) × ((edge + 8000 - v) % 8000 ≤ 100)
found_bounds edge h = omega arith

enough : (n : ℕ) → 96 ≤ n → 96 ≤ 0 + n
enough n h = omega arith

starts : (q : ℕ) → scanned q 0 ≡ calib_t24p_init
unfolding scanned detect calib_t24p_init
starts q = refl

-- On a timestamper whose bit rises at `edge` and falls half a period later, the loop of
-- calib_t24p_process finds the edge, to within one step of 100 ps below it on the circle of 8000 ps,
-- if the shifter is idle in 96 of the 1002 rounds; in which ones does not matter.
pub calibrate_from-edge :
    (edge : ℕ) (busy : ℕ → Bool)
    → edge < 8000
    → 96 ≤ idle busy 0 1002
    → (v : ℕ) × ((calibrate_from (timestamper edge busy) (calib_retries + 1) 0 calib_t24p_init).0
        ≡ some (calibrated v))
      × (v < 8000)
      × (0 < (edge + 8000 - v) % 8000)
      × ((edge + 8000 - v) % 8000 ≤ 100)
unfolding hw q
calibrate_from-edge edge busy h e =
    let (small, above, near) = found_bounds edge h in
    (
      found_at (step_of edge),
      ap (λ c. (calibrate_from (timestamper edge busy) 1001 0 c).0) (sym (starts (step_of edge)))
          ∙ finishes edge h busy 1001 0 0 (omega arith) (enough (idle busy 0 1002) e),
      small,
      above,
      near,
    )
