-- ===== src/Util/Timeout.antt =====
-- The timeouts of lib/util.c, on the wrapping 32-bit tick counter. `tics` is what timer_get_tics reads.
use wrpc_sw.Prelude.{ℕ, ◌+◌, ◌-◌, ◌%◌, ◌^◌, ◌<◌, ◌≡◌, Bool, arith, ltb}

pub record Timeout : Type 0 where
  pub start_tics : ℕ
  pub timeout : ℕ

abbrev pub tmo_init : ℕ → ℕ → Timeout
tmo_init tics milliseconds = record { start_tics = tics % 2 ^ 32; timeout = milliseconds % 2 ^ 32 }

abbrev pub tmo_restart : ℕ → Timeout → Timeout
tmo_restart tics tmo = record { start_tics = tics % 2 ^ 32; timeout = tmo.timeout }

unfoldable pub tmo_expired : ℕ → Timeout → Bool
tmo_expired tics tmo = ltb tmo.timeout ((tics % 2 ^ 32 + 2 ^ 32 - tmo.start_tics) % 2 ^ 32)

-- For the 2^32 ticks after its start or restart, across a wrap of the tick counter too, a timeout has
-- expired just when more ticks than its length have passed.
pub tmo_expired_lem :
    (now passed milliseconds : ℕ) (tmo : Timeout)
    → passed < 2 ^ 32
    → milliseconds < 2 ^ 32
    → (tmo_expired (now + passed) (tmo_init now milliseconds) ≡ ltb milliseconds passed)
      × (tmo_expired (now + passed) (tmo_restart now tmo) ≡ ltb tmo.timeout passed)
unfolding tmo_expired
tmo_expired_lem now passed milliseconds tmo h k = (ground arith, ground arith)
