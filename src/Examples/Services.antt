-- ===== src/Examples/Services.antt =====
-- The tasks, the PPS generator and the helpers of lib/util.c at concrete values.
use wrpc_sw.Prelude.{
  false, ℕ, ◌+◌, ◌*◌, ◌/◌, ◌%◌, ◌^◌, ◌≡◌, ◌⊎◌, true, some, ◌∷◌, ltb, if◌then◌else◌, arith,
  replicate,
}
use wrpc_sw.Util.Calendar.{format_time_int}
use wrpc_sw.Util.Calendar.Dates.{IsDate, second_of, format_time_int_lem}
use wrpc_sw.Tasks.{giga, Task, Clock, Tasks, free_task}
use wrpc_sw.Pps.Snapshot.{Time, Runs, shw_pps_gen_get_time, snapshot, shw_pps_gen_get_time-snapshot}

format_time_int_lem_example :
    IsDate (format_time_int 1709164800)
    × (second_of (format_time_int 1709164800) ≡ 1709164800 % 2 ^ 32)
format_time_int_lem_example = format_time_int_lem 1709164800

-- The state is the number of nanoseconds, and a job takes 600 ms.
abbrev job : Task ℕ
job = record free_task {
  used = true;
  job = some (λ w. record { done_sth = 1; ps_reset = false; world = w + 600000000 });
}

abbrev clock : Clock ℕ
clock = record { nanos_of = λ w. w % giga; ticks_of = λ w. w / 1000000 }

abbrev two_tasks : Tasks ℕ
two_tasks = record {
  tasks = record free_task { used = true } ∷ job ∷ replicate 18 free_task;
  prev_nanos = 500;
  prev_ticks = 0;
  world = 700;
}

-- The low word of the seconds wraps between the second and the third read.
abbrev counter : ℕ → Time
counter t = record { seconds = if ltb t 2 then 4294967295 else 4294967296; cycles = t * 1000 }

counter-Runs : Runs counter 16
counter-Runs = record { goes_on = λ t. ground arith; fits = λ t. ground arith }

shw_pps_gen_get_time-snapshot_example :
    (m : ℕ) × ((m ≡ 2) ⊎ (m ≡ 7))
    × (shw_pps_gen_get_time counter 16 4 0 ≡ some (snapshot counter 16 m))
shw_pps_gen_get_time-snapshot_example =
    shw_pps_gen_get_time-snapshot counter 16 0 2 counter-Runs (omega arith)
