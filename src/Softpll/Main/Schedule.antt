-- ===== src/Softpll/Main/Schedule.antt =====
-- The phase shifter and the gain schedule of the main PLL.
use wrpc_sw.Prelude.{
  ℕ, zero, suc, ◌+◌, ◌-◌, ◌≤◌, ◌<◌, ◌≡◌, refl, sym, ◌∙◌, ◌⊎◌, inl, inr, Bool, true, false, Option,
  none, some, arith, get_or, ltb, Option-cases, dec_lt,
}
use wrpc_sw.Prelude.Int.{
  ℤ, pos, negsuc, pos_part, neg_part, ◌+ℤ◌, ◌-ℤ◌, ◌≤ℤ◌, ◌<ℤ◌, i32, eq_of_parts, parts_of_eq,
  word_laws,
}
use wrpc_sw.Softpll.Regs.{Regs}
use wrpc_sw.Softpll.Main.State.{Mpll, GainSched, no_item}
use wrpc_sw.Softpll.Main.Gains.{mpll_handle_gain_schedule, run_schedule, use_stage}
use wrpc_sw.Softpll.Main.Update.{shift_phase}
use wrpc_sw.Softpll.Main.Phase.{mpll_shifter_busy}

-- How many steps the shifter is away from its target.
abbrev pub gap : Mpll → ℕ
gap s =
    let t = pos_part s.phase_shift_target + neg_part s.phase_shift_current in
    let c = pos_part s.phase_shift_current + neg_part s.phase_shift_target in (t - c) + (c - t)

-- The shifter's counters keep clear of the ends of `int`.
pub record IsRoomy (s : Mpll) : Type 0 where
  pub target_low : negsuc 1000000000 ≤ℤ s.phase_shift_target
  pub target_high : s.phase_shift_target ≤ℤ pos 1000000000
  pub current_low : negsuc 1000000000 ≤ℤ s.phase_shift_current
  pub current_high : s.phase_shift_current ≤ℤ pos 1000000000
  pub adder_low : negsuc 2000000000 ≤ℤ s.adder_ref
  pub adder_high : s.adder_ref ≤ℤ pos 2000000000

shift_up :
    (s : Mpll)
    → s.locked ≡ true
    → s.ps_freeze ≡ false
    → s.phase_shift_current <ℤ s.phase_shift_target
    → shift_phase s ≡ record s {
      phase_shift_current = i32 (s.phase_shift_current +ℤ pos 1);
      adder_ref = i32 (s.adder_ref -ℤ pos 1);
    }
unfolding shift_phase
shift_up s l f h = ground arith

shift_down :
    (s : Mpll)
    → s.locked ≡ true
    → s.ps_freeze ≡ false
    → s.phase_shift_target <ℤ s.phase_shift_current
    → shift_phase s ≡ record s {
      phase_shift_current = i32 (s.phase_shift_current -ℤ pos 1);
      adder_ref = i32 (s.adder_ref +ℤ pos 1);
    }
unfolding shift_phase
shift_down s l f h = ground arith

shift_done : (s : Mpll) → s.phase_shift_target ≡ s.phase_shift_current → shift_phase s ≡ s
unfolding shift_phase
shift_done s h = ground arith

order_cases : (a b : ℤ) → (a <ℤ b) ⊎ (b <ℤ a) ⊎ (a ≡ b)
order_cases a b = elim (dec_lt (pos_part a + neg_part b) (pos_part b + neg_part a)) [
  | yes p ↦ inl p
  | no p ↦ elim (dec_lt (pos_part b + neg_part a) (pos_part a + neg_part b)) [
    | yes q ↦ inr (inl q)
    | no q ↦ inr (inr (eq_of_parts a b (omega arith)))
  ]
]

-- One step of the phase shifter of a locked PLL that is not frozen, away from the ends of `int`: the
-- distance to the target goes down by one unless it is 0, the target stays, and the reference adder
-- moves against the current shift, so that their sum is kept.
pub shift_phase_lem :
    (s : Mpll)
    → IsRoomy s
    → s.locked ≡ true
    → s.ps_freeze ≡ false
    → let s' = shift_phase s in
      (gap s' ≡ gap s - 1)
      × (s'.phase_shift_target ≡ s.phase_shift_target)
      × (s'.adder_ref +ℤ s'.phase_shift_current ≡ s.adder_ref +ℤ s.phase_shift_current)
shift_phase_lem s k l f = elim (order_cases s.phase_shift_current s.phase_shift_target) [
  | inl p ↦ rw (shift_up s l f p) (omega word_laws, refl, omega word_laws)
  | inr (inl p) ↦ rw (shift_down s l f p) (omega word_laws, refl, omega word_laws)
  | inr (inr e) ↦ rw (shift_done s (sym e)) (omega (word_laws, parts_of_eq e), refl, refl)
]

shift_keeps :
    (s : Mpll) → ((shift_phase s).locked ≡ s.locked) × ((shift_phase s).ps_freeze ≡ s.ps_freeze)
unfolding shift_phase
shift_keeps s = ground arith

-- The phase shifter of a PLL, stepped n times.
pub shift_times : ℕ → Mpll → Mpll
shift_times zero s = s
shift_times (suc n) s = shift_times n (shift_phase s)

-- The shifter's counters stay clear of the ends of `int` for the next n steps.
pub record HasRoom (n : ℕ) (s : Mpll) : Type 0 where
  pub target_low : negsuc 1000000000 ≤ℤ s.phase_shift_target
  pub target_high : s.phase_shift_target ≤ℤ pos 1000000000
  pub current_low : negsuc 1000000000 ≤ℤ s.phase_shift_current
  pub current_high : s.phase_shift_current ≤ℤ pos 1000000000
  pub adder_low : n + neg_part s.adder_ref ≤ pos_part s.adder_ref + 2000000000
  pub adder_high : n + pos_part s.adder_ref ≤ neg_part s.adder_ref + 2000000000

HasRoom-IsRoomy : (n : ℕ) (s : Mpll) → HasRoom (suc n) s → IsRoomy s
HasRoom-IsRoomy n s h = record {
  target_low = h.target_low;
  target_high = h.target_high;
  current_low = h.current_low;
  current_high = h.current_high;
  adder_low = omega arith;
  adder_high = omega arith;
}

shift_phase-HasRoom :
    (n : ℕ) (s : Mpll)
    → HasRoom (suc n) s
    → s.locked ≡ true
    → s.ps_freeze ≡ false
    → HasRoom n (shift_phase s)
shift_phase-HasRoom n s k l f = elim (order_cases s.phase_shift_current s.phase_shift_target) [
  | inl p ↦ rw (shift_up s l f p) (omega word_laws)
  | inr (inl p) ↦ rw (shift_down s l f p) (omega word_laws)
  | inr (inr e) ↦ rw (shift_done s (sym e)) (omega arith)
]

-- The phase shifter of a locked PLL that is not frozen reaches its target: it is busy exactly until
-- as many steps have run as the target was away, for a shift that keeps clear of the ends of `int`.
pub shift_times_settles :
    (n : ℕ) (s : Mpll)
    → HasRoom n s
    → s.locked ≡ true
    → s.ps_freeze ≡ false
    → mpll_shifter_busy (shift_times n s) ≡ ltb n (gap s)
unfolding shift_times mpll_shifter_busy
shift_times_settles zero s k l f = ground arith
shift_times_settles (suc n) s k l f =
    shift_times_settles n (shift_phase s) (shift_phase-HasRoom n s k l f) ((shift_keeps s).0 ∙ l)
      ((shift_keeps s).1 ∙ f)
    ∙ ground (arith, (shift_phase_lem s (HasRoom-IsRoomy n s k) l f).0)

-- What holds of a gain schedule between two samples: the stage is one of the schedule's, and the
-- lock is reported only from the last stage.
abbrev pub SchedValid : Bool → Option GainSched → Type 0
SchedValid locked none = Unit
SchedValid locked (some g) =
    (g.current_stage < g.n_stages)
    × (locked ≡ true → (g.locked_d ≡ true) × (g.current_stage + 1 ≡ g.n_stages))

run_schedule-valid :
    (s : Mpll) (g : GainSched) (r : Regs)
    → SchedValid s.locked (some g)
    → SchedValid (run_schedule s g r).0.locked (run_schedule s g r).0.gain_sched
unfolding run_schedule use_stage
run_schedule-valid s g r (h, k) = ground arith

-- mpll_handle_gain_schedule keeps a gain schedule valid: the stage stays inside the schedule, and
-- the PLL reports its lock only with the schedule at its last stage (with no schedule there is
-- nothing to keep).
pub gain_schedule-valid :
    (s : Mpll) (r : Regs)
    → SchedValid s.locked s.gain_sched
    → let s' = (mpll_handle_gain_schedule s r).0 in SchedValid s'.locked s'.gain_sched
unfolding mpll_handle_gain_schedule
gain_schedule-valid s r h = elim (Option-cases s.gain_sched) [
  | inl e ↦ rw (e, mpll_handle_gain_schedule) (rw e tt)
  | inr (g, e) ↦ rw (e, mpll_handle_gain_schedule) (run_schedule-valid s g r (rw e at h))
]

-- With a schedule that had seen the phase lock, a lost phase lock clears the PLL's lock flag, takes
-- the schedule back to its first stage and that stage's gains, and restarts the phase detector's
-- count.
pub gain_schedule-restart :
    (s : Mpll) (g : GainSched) (r : Regs)
    → s.gain_sched ≡ some g
    → g.locked_d ≡ true
    → s.phase_ld.locked ≡ false
    → let s' = (mpll_handle_gain_schedule s r).0 in
      (s'.locked ≡ false)
      × (s'.gain_sched ≡ some (record g { current_stage = 0; locked_d = false }))
      × (s'.pi.kp ≡ (get_or g.stages 0 no_item).kp)
      × (s'.pi.ki ≡ (get_or g.stages 0 no_item).ki)
      × (s'.phase_ld.lock_cnt ≡ pos 0)
unfolding mpll_handle_gain_schedule use_stage
gain_schedule-restart s g r e d l = rw (e, mpll_handle_gain_schedule) (ground arith)
