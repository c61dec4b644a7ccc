-- ===== src/Tasks/Period.antt =====
-- wrc_task_not_yet of lib/wrc-tasks.c keeps a period.
use wrpc_sw.Prelude.{ℕ, ◌+◌, ◌%◌, ◌^◌, ◌<◌, ◌≡◌, true, false, ltb, if◌then◌else◌, arith}
use wrpc_sw.Tasks.{wrc_task_not_yet}

-- With a last time other than 0, up to 2^31 ticks after it and across a wrap of the counter, a task is
-- due just when its period has passed. The last time moves on by one period, so that no time is lost
-- when the call comes late.
pub wrc_task_not_yet_lem :
    (lastt passed period : ℕ)
    → 0 < lastt
    → lastt < 2 ^ 32
    → passed < 2 ^ 31
    → period < 2 ^ 31
    → wrc_task_not_yet ((lastt + passed) % 2 ^ 32) lastt period
      ≡ (if ltb passed period then (true, lastt) else (false, (lastt + period) % 2 ^ 32))
unfolding wrc_task_not_yet
wrc_task_not_yet_lem lastt passed period z l h k = ground arith
