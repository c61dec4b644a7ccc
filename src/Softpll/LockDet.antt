-- ===== src/Softpll/LockDet.antt =====
-- The lock detector of softpll/spll_common.c.
pub mod Laws
pub mod Runs
use wrpc_sw.Prelude.{Bool, true, false, ◌&&◌, ◌||◌, not, if◌then◌else◌}
use wrpc_sw.Prelude.Int.{ℤ, pos, negsuc, ◌+ℤ◌, ◌-ℤ◌, ltb_ℤ, leb_ℤ, eqb_ℤ, i32, neg}

pub record LockDet : Type 0 where
  pub lock_cnt : ℤ
  pub lock_samples : ℤ
  pub delock_samples : ℤ
  pub threshold : ℤ
  pub locked : Bool
  pub lock_changed : Bool

-- The C library's `abs`.
unfoldable pub abs : ℤ → ℤ
abs y = if ltb_ℤ y (pos 0) then i32 (neg y) else y

abbrev pub of_bool : Bool → ℤ
of_bool true = pos 1
of_bool false = pos 0

-- A sample within the threshold, and one outside it.
unfoldable pub ld_good : LockDet → LockDet × ℤ
ld_good ld =
    let cnt = if ltb_ℤ ld.lock_cnt ld.lock_samples then ld.lock_cnt +ℤ pos 1 else ld.lock_cnt in
    if eqb_ℤ cnt ld.lock_samples
    then (record ld { lock_cnt = cnt; lock_changed = not ld.locked; locked = true }, pos 1)
    else (record ld { lock_cnt = cnt; lock_changed = false }, of_bool ld.locked)

unfoldable pub ld_bad : LockDet → LockDet × ℤ
ld_bad ld =
    let cnt = if ltb_ℤ ld.delock_samples ld.lock_cnt then ld.lock_cnt -ℤ pos 1 else ld.lock_cnt in
    if eqb_ℤ cnt ld.delock_samples && ld.locked
    then (record ld { lock_cnt = pos 0; lock_changed = ld.locked; locked = false }, negsuc 0)
    else (record ld { lock_cnt = cnt; lock_changed = false }, of_bool ld.locked)

unfoldable pub ld_update : LockDet → ℤ → LockDet × ℤ
unfolding ld_good ld_bad
ld_update ld y = if leb_ℤ (abs y) ld.threshold then ld_good ld else ld_bad ld

unfoldable pub ld_init : LockDet → LockDet
ld_init ld = record ld { locked = false; lock_cnt = pos 0; lock_changed = false }
