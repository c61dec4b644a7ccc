-- ===== src/Softpll/Pi.antt =====
-- The PI controller of softpll/spll_common.c. `int` values are integers that `i32` brings back to
-- 32 bits, `int64_t` values ones that `i64` does. `shift` is at least 1 in every use.
pub mod Bounds
use wrpc_sw.Prelude.{ℕ, ◌-◌, ◌^◌, Bool, true, false, ◌&&◌, ◌||◌, not, if◌then◌else◌}
use wrpc_sw.Prelude.Int.{ℤ, pos, ◌+ℤ◌, ◌*ℤ◌, ltb_ℤ, i32, i64, sar}

pub record Pi : Type 0 where
  pub ki : ℤ
  pub kp : ℤ
  pub shift : ℕ
  pub bias : ℤ
  pub integrator : ℤ
  pub anti_windup : Bool
  pub y_min : ℤ
  pub y_max : ℤ
  pub x : ℤ
  pub y : ℤ

-- `i_new`, the integrator with this sample.
unfoldable pub pi_i_new : Pi → ℤ → ℤ
pi_i_new pi x = i64 (pi.integrator +ℤ i64 (pi.ki *ℤ x))

-- The output before it is clamped.
unfoldable pub pi_y_raw : Pi → ℤ → ℤ
pi_y_raw pi x =
    let y_preround = i64 (i64 (pi_i_new pi x +ℤ i64 (x *ℤ pi.kp)) +ℤ pos (2 ^ (pi.shift - 1))) in
    i32 (i64 (sar y_preround pi.shift +ℤ pi.bias))

unfoldable pub pi_update : Pi → ℤ → Pi × ℤ
pi_update pi x =
    let i_new = pi_i_new pi x in
    let y = pi_y_raw pi x in
    let aw = pi.anti_windup in
    if ltb_ℤ y pi.y_min
    then (
      record pi {
        x = x;
        y = pi.y_min;
        integrator = if (aw && ltb_ℤ pi.integrator i_new) || not aw then i_new else pi.integrator;
      },
      pi.y_min,
    )
    else if ltb_ℤ pi.y_max y
    then (
      record pi {
        x = x;
        y = pi.y_max;
        integrator = if (aw && ltb_ℤ i_new pi.integrator) || not aw then i_new else pi.integrator;
      },
      pi.y_max,
    )
    else (record pi { x = x; y = y; integrator = i_new }, y)

unfoldable pub pi_init : Pi → Pi
pi_init pi = record pi { integrator = pos 0; y = pi.bias }
