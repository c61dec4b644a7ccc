-- ===== src/Rxts/Process.antt =====
-- What calib_t24p of dev/rxts_calibrator.c makes of a calibration and of the value stored before.
use mathlib.Core.Path.{subst}
use wrpc_sw.Prelude.{
  ℕ, ◌+◌, ◌-◌, ◌%◌, ◌≤◌, ◌<◌, ◌≡◌, sym, ap, ◌↔◌, ◌⊎◌, inl, inr, Bool, true, some, Option-cases,
  Bool-cases, arith,
}
use wrpc_sw.Storage.Calibration.{CalData, Sdbfs, storage_get_calibration_parameter}
use wrpc_sw.Rxts.{
  calibrated, calib_t24p_init, cal_param_t24p, keeps_stored, choose_value, calib_t24p_process,
  calib_t24p, set_phase_transition,
}
use wrpc_sw.Rxts.Scan.{idle, timestamper, calibrate_from-edge}

kept :
    (v prev : ℕ)
    → v < 8000
    → keeps_stored v prev ≡ true
    → (2000 ≤ v) × (v ≤ prev + 2000) × (prev ≤ v + 2000)
unfolding keeps_stored
kept v prev b e = ground arith

keeps :
    (v prev : ℕ)
    → v < 8000
    → 2000 ≤ v
    → v ≤ prev + 2000
    → prev ≤ v + 2000
    → keeps_stored v prev ≡ true
unfolding keeps_stored
keeps v prev b e g h = ground arith

-- A stored value is kept exactly when it is at most 2000 ps from the new one, if that is 2000 ps at
-- least; below that the lower limit wraps around, and no stored value is kept.
pub keeps_stored_lem :
    (v prev : ℕ)
    → v < 8000
    → (keeps_stored v prev ≡ true) ↔ ((2000 ≤ v) × (v ≤ prev + 2000) × (prev ≤ v + 2000))
keeps_stored_lem v prev h = (kept v prev h, λ p. keeps v prev h p.0 p.1 p.2)

module _ (fs : Sdbfs) (v : ℕ) (d : CalData) (s : fs.Store) (small : v < 8000) where
  -- What a calibration that found v is turned into.
  abbrev Near : ℕ → Type 0
  Near t =
      (t ≡ v)
      ⊎ ((storage_get_calibration_parameter cal_param_t24p d ≡ some t)
          × (2000 ≤ v)
          × (v ≤ t + 2000)
          × (t ≤ v + 2000))

  chosen :
      ((choose_value fs (some (calibrated v)) d s).0 ≡ some v)
      ⊎ ((prev : ℕ) × (storage_get_calibration_parameter cal_param_t24p d ≡ some prev)
          × (keeps_stored v prev ≡ true)
          × ((choose_value fs (some (calibrated v)) d s).0 ≡ some prev))
  unfolding choose_value
  chosen = elim (Option-cases (storage_get_calibration_parameter cal_param_t24p d)) [
    | inl e ↦ inl (ground (arith, e))
    | inr (prev, e) ↦ elim (Bool-cases (keeps_stored v prev)) [
      | inl k ↦ inr (prev, e, k, ground (arith, e, k))
      | inr k ↦ inl (ground (arith, e, k))
    ]
  ]

  near : (t : ℕ) → Near (set_phase_transition t (choose_value fs (some (calibrated v)) d s).0)
  unfolding set_phase_transition
  near t = elim chosen [
    | inl e ↦ inl (ap (set_phase_transition t) e)
    | inr (prev, e, k, c) ↦
        let (large, low, high) = kept v prev small k in
        subst (λ r. Near (set_phase_transition t r)) (sym c) (inr (e, large, low, high))
  ]

-- On the timestamper of the scan, if the phase shifter is not busy in 96 at least of the first 1002
-- rounds, calib_t24p gives the network device a value that is right within 100 ps below the edge, or the
-- stored one if it is at most 2000 ps from such a value.
pub calib_t24p-edge :
    (fs : Sdbfs) (edge : ℕ) (busy : ℕ → Bool) (d : CalData) (s : fs.Store) (before : ℕ)
    → edge < 8000
    → 96 ≤ idle busy 0 1002
    → let t = (calib_t24p fs (timestamper edge busy) calib_t24p_init d s before).0 in
      (v : ℕ) × (v < 8000)
      × (0 < (edge + 8000 - v) % 8000)
      × ((edge + 8000 - v) % 8000 ≤ 100)
      × ((t ≡ v)
          ⊎ ((storage_get_calibration_parameter cal_param_t24p d ≡ some t)
              × (2000 ≤ v)
              × (v ≤ t + 2000)
              × (t ≤ v + 2000)))
unfolding calib_t24p calib_t24p_process
calib_t24p-edge fs edge busy d s before h e =
    let (v, found, small, above, below) = calibrate_from-edge edge busy h e in
    (
      v,
      small,
      above,
      below,
      subst (λ u. Near fs v d s small (set_phase_transition before (choose_value fs u d s).0))
          (sym found) (near fs v d s small before),
    )
