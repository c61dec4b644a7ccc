-- ===== src/Softpll/LockDet/Laws.antt =====
-- The lock detector's invariant, its hysteresis, and how long it takes to lock.
use wrpc_sw.Prelude.{◌≡◌, true, false, not, arith, if◌then◌else◌}
use wrpc_sw.Prelude.{◌⊎◌}
use wrpc_sw.Prelude.Int.{ℤ, pos, negsuc, ◌≤ℤ◌, ◌<ℤ◌, ◌+ℤ◌, ◌-ℤ◌}
use wrpc_sw.Softpll.LockDet.{LockDet, ld_update}

-- What holds of a detector between two samples, where it locks above the count at which it unlocks.
pub record IsValid (ld : LockDet) : Type 0 where
  pub thresholds : ld.delock_samples <ℤ ld.lock_samples
  pub delock_nonneg : pos 0 ≤ℤ ld.delock_samples
  pub cnt_nonneg : pos 0 ≤ℤ ld.lock_cnt
  pub locked_above : ld.locked ≡ true → ld.delock_samples <ℤ ld.lock_cnt
  pub unlocked_below : ld.locked ≡ false → ld.lock_cnt <ℤ ld.lock_samples
  pub capped : ld.lock_cnt ≤ℤ ld.lock_samples

-- Every sample keeps the detector valid: the count stays between 0 and lock_samples, above
-- delock_samples while locked and below lock_samples while not.
pub ld_update-IsValid : (ld : LockDet) (y : ℤ) → IsValid ld → IsValid (ld_update ld y).0
unfolding ld_update ◌+ℤ◌ ◌-ℤ◌
ld_update-IsValid ld y v = ground arith

-- What a sample reports: lock_changed tells exactly whether the lock flag differs from before, and
-- the result is 1 if the detector is now locked, -1 if it has just lost its lock, 0 otherwise.
pub ld_update_reports :
    (ld : LockDet) (y : ℤ)
    → let (ld', r) = ld_update ld y in
      (ld'.lock_changed ≡ (if ld.locked then not ld'.locked else ld'.locked))
      × (r ≡ (if ld'.locked then pos 1 else if ld.locked then negsuc 0 else pos 0))
unfolding ld_update
ld_update_reports ld y = ground arith

-- A detector whose delock_samples is above its lock_samples never unlocks, whatever the samples.
pub ld_update_never_unlocks :
    (ld : LockDet) (y : ℤ)
    → ld.lock_samples <ℤ ld.delock_samples
    → ld.lock_cnt ≤ℤ ld.lock_samples
    → ((ld_update ld y).0.lock_cnt ≤ℤ (ld_update ld y).0.lock_samples)
      × ((ld.locked ≡ false) ⊎ ((ld_update ld y).0.locked ≡ true))
unfolding ld_update ◌+ℤ◌ ◌-ℤ◌
ld_update_never_unlocks ld y h k = ground arith
