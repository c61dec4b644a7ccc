-- ===== src/Examples/Controllers.antt =====
-- The controllers and lock detectors at concrete values.
use wrpc_sw.Prelude.{◌≡◌, refl, [], ◌∷◌, arith, leb}
use wrpc_sw.Prelude.Int.{pos, negsuc, ◌≤ℤ◌}
use wrpc_sw.Examples.Data.{some_pi, some_ld}
use wrpc_sw.Softpll.Pi.{pi_update}
use wrpc_sw.Softpll.Pi.Bounds.{pi_update_bounds}
use wrpc_sw.Softpll.LockDet.{LockDet, ld_init, abs}
use wrpc_sw.Softpll.LockDet.Laws.{IsValid}
use wrpc_sw.Softpll.LockDet.Runs.{ld_run, ld_run_locks}

pi_update_bounds_example :
    (some_pi.y_min ≤ℤ (pi_update some_pi (negsuc 149)).1)
    × ((pi_update some_pi (negsuc 149)).1 ≤ℤ some_pi.y_max)
    × ((pi_update some_pi (negsuc 149)).0.y ≡ (pi_update some_pi (negsuc 149)).1)
pi_update_bounds_example = pi_update_bounds some_pi (negsuc 149) (omega arith)

some_ld-IsValid : IsValid some_ld
some_ld-IsValid = ground arith

abbrev last_locked : LockDet
last_locked = record some_ld { lock_cnt = pos 101 }

abbrev three : LockDet
three = record some_ld { lock_samples = pos 3 }

abs_small : abs (pos 7) ≡ pos 7
unfolding abs
abs_small = refl

ld_run_locks_example : (ld_run (ld_init three) (pos 7 ∷ pos 7 ∷ pos 7 ∷ [])).locked ≡ leb 3 3
ld_run_locks_example =
    ld_run_locks three 3 (pos 7 ∷ pos 7 ∷ pos 7 ∷ []) refl (omega arith) (ground (arith, abs_small))

abs_large : abs (pos 5000) ≡ pos 5000
unfolding abs
abs_large = refl
