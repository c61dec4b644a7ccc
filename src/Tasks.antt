-- ===== src/Tasks.antt =====
-- The tasks of lib/wrc-tasks.c. `timer_get_tics` and the PPS generator's time are read from the state W
-- of the rest of the program, which the jobs change. What a job does to the tasks is said by its outcome.
pub mod Create
pub mod Period
pub mod Accounting
use wrpc_sw.Prelude.{
  ℕ, zero, suc, ◌+◌, ◌-◌, ◌*◌, ◌%◌, ◌^◌, Bool, true, false, Option, none, some, List, [], ◌∷◌, map,
  set, get_elem?, take, replicate, length, leb, ltb, ◌==◌, if◌then◌else◌,
}

abbrev pub wrc_max_tasks : ℕ
wrc_max_tasks = 20

abbrev pub tics_per_second : ℕ
tics_per_second = 1000

-- time_before of include/dev/syscon.h, the sign of a 32-bit difference.
abbrev pub time_before : ℕ → ℕ → Bool
time_before a b = leb (2 ^ 31) ((a + 2 ^ 32 - b) % 2 ^ 32)

-- Whether it is not yet time, and the next last time.
unfoldable pub wrc_task_not_yet : ℕ → ℕ → ℕ → Bool × ℕ
wrc_task_not_yet now lastt period =
    if lastt == 0
    then (false, now)
    else if time_before now ((lastt + period) % 2 ^ 32)
    then (true, lastt)
    else (false, (lastt + period) % 2 ^ 32)

-- What a run of a job gives: whether it did something, whether it was the shell with the command
-- `ps reset` of shell/cmd_ps.c, and the rest of the program afterwards.
pub record Ran (W : Type 0) : Type 0 where
  pub done_sth : ℕ
  pub ps_reset : Bool
  pub world : W

-- wrc_task
pub record Task (W : Type 0) : Type 0 where
  pub used : Bool
  pub name : List ℕ
  pub enabled : Option (W → Bool)
  pub init : Option (W → W)
  pub job : Option (W → Ran W)
  pub nrun : ℕ
  pub seconds : ℕ
  pub nanos : ℕ
  pub max_run_ticks : ℕ

-- The times that the profile reads.
pub record Clock (W : Type 0) : Type 0 where
  pub nanos_of : W → ℕ
  pub ticks_of : W → ℕ

-- tasks, prev_nanos_for_profile and prev_ticks_for_profile.
pub record Tasks (W : Type 0) : Type 0 where
  pub tasks : List (Task W)
  pub prev_nanos : ℕ
  pub prev_ticks : ℕ
  pub world : W

abbrev pub giga : ℕ
giga = 1000 * 1000 * 1000

-- The difference of two 32-bit readings as an `int`, with one turn added if it is negative.
abbrev pub since : ℕ → ℕ → ℕ → ℕ
since now prev turn =
    let d = (now + 2 ^ 32 - prev) % 2 ^ 32 in if ltb d (2 ^ 31) then d else (d + turn) % 2 ^ 32

module _ {W : Type 0} where
  abbrev pub task_time_normalize : Task W → Task W
  task_time_normalize t =
      if ltb giga t.nanos
      then record t { nanos = t.nanos - giga; seconds = (t.seconds + 1) % 2 ^ 32 }
      else t

  -- The time since the last call goes to a task.
  unfoldable pub charge : ℕ → ℕ → Task W → Task W
  charge delta delta_ticks t =
      let timed = task_time_normalize (record t { nanos = (t.nanos + delta) % 2 ^ 32 }) in
      if ltb timed.max_run_ticks delta_ticks
      then record timed { max_run_ticks = delta_ticks }
      else timed

  -- The task at a place of the array, changed.
  abbrev pub at : ℕ → (Task W → Task W) → List (Task W) → List (Task W)
  at i f [] = []
  at zero f (t ∷ ts) = f t ∷ ts
  at (suc i) f (t ∷ ts) = t ∷ at i f ts

  unfoldable pub account_task : Clock W → ℕ → ℕ → Tasks W → Tasks W
  account_task clock i done_sth s =
      let nanos = clock.nanos_of s.world in
      let ticks = clock.ticks_of s.world in
      let delta = since nanos s.prev_nanos giga in
      let delta_ticks = since ticks s.prev_ticks tics_per_second in
      record s {
        tasks = at (if done_sth == 0 then 0 else i) (charge delta delta_ticks) s.tasks;
        prev_nanos = nanos;
        prev_ticks = ticks;
      }

  abbrev pub is_enabled : Option (W → Bool) → W → Bool
  is_enabled none w = true
  is_enabled (some enabled) w = enabled w

  abbrev pub count : ℕ → Task W → Task W
  count n t = record t { nrun = (t.nrun + n) % 2 ^ 32 }

  -- `ps reset`
  unfoldable pub reset_tasks : List (Task W) → List (Task W)
  reset_tasks [] = []
  reset_tasks (t ∷ ts) =
      (if t.used then record t { nrun = 0; seconds = 0; nanos = 0; max_run_ticks = 0 } else t)
      ∷ reset_tasks ts

  -- A job has been run.
  abbrev pub after_job : Ran W → Tasks W → Tasks W
  after_job ran s = record s {
    tasks = if ran.ps_reset then reset_tasks s.tasks else s.tasks;
    world = ran.world;
  }

  -- Task t stands at place i.
  unfoldable pub wrc_run_task : Clock W → ℕ → Task W → Tasks W → Tasks W
  wrc_run_task clock i t s = elim t.job [
    | none ↦ account_task clock i 0 (record s { tasks = at i (count 1) s.tasks })
    | some job ↦
        if is_enabled t.enabled s.world
        then (let ran = job s.world in
            let s' = after_job ran s in
            account_task clock i ran.done_sth
              (record s' { tasks = at i (count ran.done_sth) s'.tasks }))
        else account_task clock i 0 s
  ]

  -- The loop of wrc_poll_all_tasks over n tasks from place i on.
  unfoldable pub poll_from : Clock W → ℕ → ℕ → Tasks W → Tasks W
  poll_from clock zero i s = s
  poll_from clock (suc n) i s = elim (get_elem? s.tasks i) [
    | none ↦ s
    | some t ↦ poll_from clock n (suc i) (if t.used then wrc_run_task clock i t s else s)
  ]

  unfoldable pub wrc_poll_all_tasks : Clock W → Tasks W → Tasks W
  wrc_poll_all_tasks clock s = poll_from clock wrc_max_tasks 0 s

  -- A task with nothing accounted, and one that wrc_task_create fills in: its statistics stay.
  abbrev pub free_task : Task W
  free_task = record {
    used = false;
    name = [];
    enabled = none;
    init = none;
    job = none;
    nrun = 0;
    seconds = 0;
    nanos = 0;
    max_run_ticks = 0;
  }

  abbrev pub fill_task : List ℕ → Option (W → W) → Option (W → Ran W) → Task W → Task W
  fill_task name init job t = record t {
    used = true;
    name = take 16 name;
    enabled = none;
    init = init;
    job = job;
  }

  -- The place of the first unused task, from place i on.
  unfoldable pub free_place : ℕ → List (Task W) → Option ℕ
  free_place i [] = none
  free_place i (t ∷ ts) = if t.used then free_place (suc i) ts else some i

  unfoldable pub wrc_task_create :
      List ℕ → Option (W → W) → Option (W → Ran W) → List (Task W) → Option ℕ × List (Task W)
  wrc_task_create name init job ts = elim (free_place 0 ts) [
    | none ↦ (none, ts)
    | some i ↦ (some i, at i (fill_task name init job) ts)
  ]

  abbrev pub wrc_task_set_enable : ℕ → Option (W → Bool) → List (Task W) → List (Task W)
  wrc_task_set_enable i enabled ts = at i (λ t. record t { enabled = enabled }) ts

  abbrev pub wrc_tasks_preinit : List (Task W)
  wrc_tasks_preinit = replicate wrc_max_tasks free_task

  abbrev pub run_init : Bool → Option (W → W) → W → W
  run_init true (some init) w = init w
  run_init _ _ w = w

  unfoldable pub wrc_tasks_run_inits : List (Task W) → W → W
  wrc_tasks_run_inits [] w = w
  wrc_tasks_run_inits (t ∷ ts) w = wrc_tasks_run_inits ts (run_init t.used t.init w)

  abbrev pub wrc_tasks_accounting_init : Clock W → Tasks W → Tasks W
  wrc_tasks_accounting_init clock s = record s {
    prev_nanos = clock.nanos_of s.world;
    prev_ticks = clock.ticks_of s.world;
  }
