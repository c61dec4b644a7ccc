-- ===== src/Softpll/External/Diagram.antt =====
-- The transition diagram of external_align_fsm, and when its alignment counts as locked.
use wrpc_sw.Prelude.{ℕ, ◌≡◌, refl, ◌≢◌, ◌⊎◌, inl, true, false, arith}
use wrpc_sw.Softpll.Config.{time_after_eq}
use wrpc_sw.Softpll.Main.Phase.{mpll_shifter_busy}
use wrpc_sw.Softpll.State.{
  Softpll, AlignState, ext_off, wait_clkin, wait_plock, start, start_main_pll, init_csync,
  wait_csync, start_alignment, wait_sample, compensate_delay, align_locked,
}
use wrpc_sw.Softpll.Sequencer.{aligned}
use wrpc_sw.Softpll.External.{align_sample, align_dispatch, external_align_fsm}

infix 40 ◌⟶◌
pub data ◌⟶◌ : AlignState → AlignState → Type 0 where
  clock_there : wait_clkin ⟶ wait_plock
  clock_gone : wait_plock ⟶ wait_clkin
  pll_locked : wait_plock ⟶ start
  helper_locked : start ⟶ start_main_pll
  helper_timeout : start ⟶ wait_clkin
  main_locked : start_main_pll ⟶ init_csync
  main_timeout : start_main_pll ⟶ wait_clkin
  synced : init_csync ⟶ wait_csync
  settled : wait_csync ⟶ start_alignment
  target_chosen : start_alignment ⟶ wait_sample
  on_target : wait_sample ⟶ compensate_delay
  compensated : compensate_delay ⟶ align_locked
  unlocked : align_locked ⟶ wait_clkin
  retuned : align_locked ⟶ compensate_delay

-- Either nothing changes, or an edge is followed.
abbrev pub Follows : AlignState → AlignState → Type 0
Follows a b = (b ≡ a) ⊎ (a ⟶ b)

module _ (div64 : ℕ → ℕ → ℕ) where
  dispatch-Follows :
      (q : AlignState) (ljd : ℕ) (s : Softpll)
      → s.ext.align_state ≡ q
      → Follows q (align_dispatch div64 q ljd s).0.ext.align_state
  unfolding align_dispatch align_sample
  dispatch-Follows ext_off ljd s e = inl e
  dispatch-Follows wait_clkin ljd s e = grind (arith, clock_there)
  dispatch-Follows wait_plock ljd s e = grind (arith, clock_gone, pll_locked)
  dispatch-Follows start ljd s e = grind (arith, helper_locked, helper_timeout)
  dispatch-Follows start_main_pll ljd s e = grind (arith, main_locked, main_timeout)
  dispatch-Follows init_csync ljd s e = grind (arith, synced)
  dispatch-Follows wait_csync ljd s e = grind (arith, settled)
  dispatch-Follows start_alignment ljd s e = grind (arith, target_chosen)
  dispatch-Follows wait_sample ljd s e = grind (arith, on_target)
  dispatch-Follows compensate_delay ljd s e = grind (arith, compensated)
  dispatch-Follows align_locked ljd s e = grind (arith, unlocked, retuned)

  -- One run of external_align_fsm leaves the alignment's state alone or follows one edge of the
  -- diagram, whatever ppsi's division does.
  pub external_align_fsm-Follows :
      (ljd : ℕ) (s : Softpll)
      → Follows s.ext.align_state (external_align_fsm div64 ljd s).0.ext.align_state
  unfolding external_align_fsm
  external_align_fsm-Follows ljd s = ground (arith, dispatch-Follows s.ext.align_state ljd s refl)

  dispatch-locked :
      (q : AlignState) (ljd : ℕ) (s : Softpll)
      → s.ext.align_state ≡ q
      → q ≢ align_locked
      → (align_dispatch div64 q ljd s).0.ext.align_state ≡ align_locked
      → (q ≡ compensate_delay) × (mpll_shifter_busy s.mpll ≡ false)
  unfolding align_dispatch align_sample
  dispatch-locked compensate_delay ljd s e n h = ground arith
  dispatch-locked align_locked ljd s e n h = absurd (n refl)
  dispatch-locked _ ljd s e n h = ground arith

  dispatch-aligned :
      (q : AlignState) (ljd : ℕ) (s : Softpll)
      → s.ext.align_state ≡ q
      → aligned q ≡ false
      → aligned (align_dispatch div64 q ljd s).0.ext.align_state ≡ true
      → (q ≡ wait_csync) × (time_after_eq s.regs.tics s.ext.align_timer ≡ true)
  unfolding align_dispatch align_sample
  dispatch-aligned wait_csync ljd s e n h = ground arith
  dispatch-aligned _ ljd s e n h = ground arith

  -- The alignment becomes locked only from compensate_delay with the main PLL's shifter settled.
  pub external_align_fsm-locks :
      (ljd : ℕ) (s : Softpll)
      → s.ext.align_state ≢ align_locked
      → (external_align_fsm div64 ljd s).0.ext.align_state ≡ align_locked
      → (s.ext.align_state ≡ compensate_delay) × (mpll_shifter_busy s.mpll ≡ false)
  unfolding external_align_fsm
  external_align_fsm-locks ljd s n h = dispatch-locked s.ext.align_state ljd s refl n (ground arith)

  -- The alignment enters the states in which the external clock can count as locked only from
  -- wait_csync, when the synchronisation timer has run out.
  pub external_align_fsm-aligns :
      (ljd : ℕ) (s : Softpll)
      → aligned s.ext.align_state ≡ false
      → aligned (external_align_fsm div64 ljd s).0.ext.align_state ≡ true
      → (s.ext.align_state ≡ wait_csync) × (time_after_eq s.regs.tics s.ext.align_timer ≡ true)
  unfolding external_align_fsm
  external_align_fsm-aligns ljd s n h =
      dispatch-aligned s.ext.align_state ljd s refl n (ground arith)
