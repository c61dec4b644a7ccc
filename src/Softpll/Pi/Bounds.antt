-- ===== src/Softpll/Pi/Bounds.antt =====
-- The PI controller's output range and its anti-windup.
use wrpc_sw.Prelude.{◌≡◌, true, arith}
use wrpc_sw.Prelude.{◌⊎◌}
use wrpc_sw.Prelude.Int.{ℤ, ◌≤ℤ◌, ◌<ℤ◌}
use wrpc_sw.Softpll.Pi.{Pi, pi_i_new, pi_y_raw, pi_update}

-- With y_min ≤ y_max, the value that pi_update returns lies between y_min and y_max whatever the
-- sample is and however the sums wrap, and it is the value kept as the controller's output.
pub pi_update_bounds :
    (pi : Pi) (x : ℤ)
    → pi.y_min ≤ℤ pi.y_max
    → (pi.y_min ≤ℤ (pi_update pi x).1)
      × ((pi_update pi x).1 ≤ℤ pi.y_max)
      × ((pi_update pi x).0.y ≡ (pi_update pi x).1)
unfolding pi_update
pi_update_bounds pi x h = ground arith

-- With anti-windup on, one of three things happens: the unclamped output is below y_min and the
-- integrator does not go down; the output is at least y_min and above y_max and the integrator does
-- not go up; or the output is in range, the new integrator is stored, and the unclamped output is
-- returned.
pub pi_update_windup :
    (pi : Pi) (x : ℤ)
    → pi.anti_windup ≡ true
    → ((pi_y_raw pi x <ℤ pi.y_min) × (pi.integrator ≤ℤ (pi_update pi x).0.integrator))
      ⊎ ((pi.y_min ≤ℤ pi_y_raw pi x)
          × (pi.y_max <ℤ pi_y_raw pi x)
          × ((pi_update pi x).0.integrator ≤ℤ pi.integrator))
      ⊎ ((pi.y_min ≤ℤ pi_y_raw pi x)
          × (pi_y_raw pi x ≤ℤ pi.y_max)
          × ((pi_update pi x).0.integrator ≡ pi_i_new pi x)
          × ((pi_update pi x).1 ≡ pi_y_raw pi x))
unfolding pi_update
pi_update_windup pi x h = ground arith

pub x-pi_update : (pi : Pi) (x : ℤ) → (pi_update pi x).0.x ≡ x
unfolding pi_update
x-pi_update pi x = ground arith

pub y-pi_update : (pi : Pi) (x : ℤ) → (pi_update pi x).0.y ≡ (pi_update pi x).1
unfolding pi_update
y-pi_update pi x = ground arith
