-- ===== src/Tasks/Accounting.antt =====
-- The time that lib/wrc-tasks.c accounts to the tasks is the clock's.
use wrpc_sw.Prelude.{Option, none, ℕ, ◌+◌, ◌%◌, ◌≤◌, ◌<◌, ◌≡◌, false, some, List, [], ◌∷◌, length}
use wrpc_sw.Tasks.{giga, Ran, Task, Clock, Tasks}

module _ {W : Type 0} where
  -- No task has more than a second in its nanoseconds.
  abbrev pub Normal : List (Task W) → Type 0
  Normal [] = Unit
  Normal (t ∷ ts) = (t.nanos ≤ giga) × Normal ts

  -- The nanoseconds of all tasks, whole seconds aside.
  abbrev pub sum_nanos : List (Task W) → ℕ
  sum_nanos [] = 0
  sum_nanos (t ∷ ts) = t.nanos + sum_nanos ts

  -- The tasks' nanoseconds and the time that was read last differ by c, whole seconds aside.
  pub record Books (c : ℕ) (s : Tasks W) : Type 0 where
    pub normal : Normal s.tasks
    pub prev_in : s.prev_nanos < giga
    pub balance : sum_nanos s.tasks % giga ≡ (c + s.prev_nanos) % giga

  -- The job never is the shell with `ps reset`.
  abbrev pub Quiet : Option (W → Ran W) → Type 0
  Quiet none = Unit
  Quiet (some job) = (w : W) → (job w).ps_reset ≡ false

  abbrev pub AllQuiet : List (Task W) → Type 0
  AllQuiet [] = Unit
  AllQuiet (t ∷ ts) = Quiet t.job × AllQuiet ts

  module _ (clock : Clock W) (reads : (w : W) → clock.nanos_of w < giga) where
    -- The books stay right, there is a task for each place, and no job resets.
    abbrev Kept : ℕ → Tasks W → Tasks W → Type 0
    Kept c s r = Books c r × ((length r.tasks ≡ length s.tasks) × AllQuiet r.tasks)

    abbrev Right : ℕ → Tasks W → Type 0
    Right c s = Books c s × AllQuiet s.tasks
