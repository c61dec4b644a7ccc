-- ===== src/Softpll/AuxChannel/Diagram.antt =====
-- The aux channels: transition diagram, and when a channel is reported as locked.
use wrpc_sw.Prelude.{
  ℕ, zero, suc, ◌-◌, ◌≡◌, refl, ap, ◌∙◌, inl, inr, true, false, not, ◌&&◌, ◌||◌, Option, some, List,
  [], ◌∷◌, arith, set, get_elem?, ◌==◌, Bool-cases,
}
use mathlib.Core.Option
use wrpc_sw.Prelude.Int.{ℤ}
use wrpc_sw.Softpll.Regs.{aux_locking_enabled}
use wrpc_sw.Softpll.Irq.{is_ready}
use wrpc_sw.Softpll.Main.State.{mpll_start, mpll_stop}
use wrpc_sw.Softpll.Main.Phase.{mpll_set_phase_shift, mpll_shifter_busy}
use wrpc_sw.Softpll.State.{
  Softpll, Aux, AuxSeq, AuxMode, aux_slave, phase_monitor, aux_disabled, lock_pll, align_phase,
  slave_ready, wait_monitor_lock, monitor_ready,
}
use wrpc_sw.Softpll.AuxChannel.{
  modify_aux, spll_start_channel, spll_stop_channel, set_seq, set_value, set_status, enable_channel,
  watch_monitor, set_phase_shift, aux_dispatch, spll_update_aux_clock, is_off,
}

-- The edges of the state machine of channel ch, whose data is a, with the condition of each.
pub data Edge (s : Softpll) (ch : ℕ) (a : Aux) : AuxSeq → AuxSeq → Type 0 where
  keep : {q : AuxSeq} → Edge s ch a q q
  switched_off : {q : AuxSeq} → aux_locking_enabled ch s.regs ≡ false → Edge s ch a q aux_disabled
  unlocked :
      (s.mpll.locked && a.dmtd.phase_ld.locked) ≡ false → Edge s ch a slave_ready aux_disabled
  unmonitored : {q : AuxSeq} → s.mpll.locked ≡ false → Edge s ch a q aux_disabled
  slave_on :
      s.mpll.locked ≡ true
      → aux_locking_enabled ch s.regs ≡ true
      → Edge s ch a aux_disabled lock_pll
  monitor_on :
      s.mpll.locked ≡ true
      → aux_locking_enabled ch s.regs ≡ true
      → Edge s ch a aux_disabled wait_monitor_lock
  measured : a.tracker.ready ≡ true → Edge s ch a wait_monitor_lock monitor_ready
  locked : a.dmtd.phase_ld.locked ≡ true → Edge s ch a lock_pll align_phase
  aligned : mpll_shifter_busy a.dmtd ≡ false → Edge s ch a align_phase slave_ready

-- The channel's state.
abbrev pub channel_seq : Softpll → ℕ → Option AuxSeq
channel_seq s ch = Option.map (λ (a : Aux). a.seq_state) (get_elem? s.aux (ch - 1))

modify_seq :
    (l : List Aux) (i : ℕ) (a : Aux) (f : Aux → Aux)
    → get_elem? l i ≡ some a
    → get_elem? (modify_aux l i f) i ≡ some (f a)
unfolding modify_aux
modify_seq [] i a f e = cc
modify_seq (b ∷ l) zero a f e = ap (Option.map f) e
modify_seq (b ∷ l) (suc i) a f e = modify_seq l i a f e

set_same :
    (l : List Aux) (i : ℕ) (a b : Aux) → get_elem? l i ≡ some a → get_elem? (set l i b) i ≡ some b
set_same [] i a b e = cc
set_same (c ∷ l) zero a b e = refl
set_same (c ∷ l) (suc i) a b e = set_same l i a b e

stop-there :
    (s : Softpll) (ch : ℕ) (a : Aux)
    → get_elem? s.aux (ch - 1) ≡ some a
    → (b : Aux) × (get_elem? (spll_stop_channel s ch).aux (ch - 1) ≡ some b)
unfolding spll_stop_channel
stop-there s ch a e = elim (Bool-cases (ch == 0)) [
  | inl z ↦ (a, ground arith)
  | inr z ↦
      let (m, r) = mpll_stop a.dmtd s.regs in
      (record a { dmtd = m }, rw (z, e) (set_same s.aux (ch - 1) a (record a { dmtd = m }) e))
]

start-there :
    (s : Softpll) (ch : ℕ) (a : Aux)
    → get_elem? s.aux (ch - 1) ≡ some a
    → (b : Aux) × (get_elem? (spll_start_channel s ch).0.aux (ch - 1) ≡ some b)
      × (b.seq_state ≡ a.seq_state)
unfolding spll_start_channel
start-there s ch a e = elim (Bool-cases (not (is_ready s.seq_state) || (ch == 0))) [
  | inl z ↦ (a, rw z e, refl)
  | inr z ↦
      let (m, r) = mpll_start a.dmtd s.regs in
      (record a { dmtd = m }, rw (z, e) (set_same s.aux (ch - 1) a (record a { dmtd = m }) e), refl)
]

-- The channel moved along an edge.
abbrev pub Moves : Softpll → ℕ → Aux → Softpll → AuxSeq → Type 0
Moves s ch a t q = (q' : AuxSeq) × (channel_seq t ch ≡ some q') × Edge s ch a q q'

set_seq-channel :
    (t : Softpll) (ch : ℕ) (b : Aux) (q : AuxSeq)
    → get_elem? t.aux (ch - 1) ≡ some b
    → channel_seq (set_seq t ch q) ch ≡ some q
unfolding set_seq
set_seq-channel t ch b q e = rw (modify_seq t.aux (ch - 1) b _ e) refl

enable-Moves :
    (m : AuxMode) (s : Softpll) (ch : ℕ) (a : Aux)
    → get_elem? s.aux (ch - 1) ≡ some a
    → a.seq_state ≡ aux_disabled
    → s.mpll.locked ≡ true
    → aux_locking_enabled ch s.regs ≡ true
    → Moves s ch a (enable_channel s ch m a).0 aux_disabled
unfolding enable_channel
enable-Moves aux_slave s ch a e h l o =
    let (b, there, same) = start-there s ch a e in
    elim (Bool-cases (spll_start_channel s ch).1) [
      | inl z ↦ (
        lock_pll,
        rw z (set_seq-channel (spll_start_channel s ch).0 ch b lock_pll there),
        slave_on l o,
      )
      | inr z ↦ (aux_disabled, rw z (rw there (ap some (same ∙ h))), keep)
    ]
enable-Moves phase_monitor s ch a e h l o =
    (wait_monitor_lock, rw (modify_seq s.aux (ch - 1) a _ e) refl, monitor_on l o)

watch-Moves :
    (s : Softpll) (ch : ℕ) (a : Aux)
    → get_elem? s.aux (ch - 1) ≡ some a
    → (q : AuxSeq) → a.seq_state ≡ q
    → Moves s ch a (watch_monitor s ch a).0 q
unfolding watch_monitor set_status set_value set_seq
watch-Moves s ch a e q h = elim (Bool-cases s.mpll.locked) [
  | inl z ↦ (q, rw (z, modify_seq s.aux (ch - 1) a _ e, h) refl, keep)
  | inr z ↦ (
    aux_disabled,
    rw z (set_seq-channel (set_status s ch false) ch a aux_disabled e),
    unmonitored z,
  )
]

module _ (div64 : ℕ → ℕ → ℕ) where
  shift-there :
      (s : Softpll) (ch : ℕ) (v : ℤ) (a : Aux)
      → get_elem? s.aux (ch - 1) ≡ some a
      → (b : Aux) × (get_elem? (set_phase_shift div64 s ch v).aux (ch - 1) ≡ some b)
  unfolding set_phase_shift
  shift-there s ch v a e = elim (Bool-cases (ch == 0)) [
    | inl z ↦ (a, rw z e)
    | inr z ↦ (
      record a { dmtd = mpll_set_phase_shift div64 a.dmtd v },
      rw z (modify_seq s.aux (ch - 1) a _ e),
    )
  ]

  dispatch-Moves :
      (q : AuxSeq) (s : Softpll) (ch : ℕ) (a : Aux)
      → get_elem? s.aux (ch - 1) ≡ some a
      → a.seq_state ≡ q
      → Moves s ch a (aux_dispatch div64 q s ch a).0 q
  unfolding aux_dispatch set_seq set_status set_value
  dispatch-Moves aux_disabled s ch a e h =
      elim (Bool-cases (s.mpll.locked && aux_locking_enabled ch s.regs)) [
        | inl z ↦ rw z (enable-Moves a.mode s ch a e h (ground arith) (ground arith))
        | inr z ↦ (aux_disabled, rw (z, e, h) refl, keep)
      ]
  dispatch-Moves wait_monitor_lock s ch a e h = elim (Bool-cases a.tracker.ready) [
    | inl z ↦ (
      monitor_ready,
      rw
          (
            z,
            modify_seq (modify_aux s.aux (ch - 1) _) (ch - 1) _ _ (modify_seq s.aux (ch - 1) a _ e),
          )
          refl,
      measured z,
    )
    | inr z ↦
        let (q, there, edge) = watch-Moves s ch a e wait_monitor_lock h in (q, rw z there, edge)
  ]
  dispatch-Moves monitor_ready s ch a e h = watch-Moves s ch a e monitor_ready h
  dispatch-Moves lock_pll s ch a e h = elim (Bool-cases a.dmtd.phase_ld.locked) [
    | inl z ↦
        let (b, there) = shift-there s ch s.mpll_shift_ps a e in
        (
          align_phase,
          rw z
              (set_seq-channel (set_phase_shift div64 s ch s.mpll_shift_ps) ch b align_phase there),
          locked z,
        )
    | inr z ↦ (lock_pll, rw (z, e, h) refl, keep)
  ]
  dispatch-Moves align_phase s ch a e h = elim (Bool-cases (mpll_shifter_busy a.dmtd)) [
    | inl z ↦ (align_phase, rw (z, e, h) refl, keep)
    | inr z ↦ (slave_ready, rw (z, modify_seq s.aux (ch - 1) a _ e) refl, aligned z)
  ]
  dispatch-Moves slave_ready s ch a e h =
      elim (Bool-cases (not s.mpll.locked || not a.dmtd.phase_ld.locked)) [
        | inr z ↦ (slave_ready, rw (z, e, h) refl, keep)
        | inl z ↦ (
          aux_disabled,
          rw z (set_seq-channel (set_status s ch false) ch a aux_disabled e),
          unlocked (ground arith),
        )
      ]

  -- One run of spll_update_aux_clock on a channel that exists moves it along an edge of the diagram
  -- whose condition holds: in particular a slave is ready only after its phase shifter has settled,
  -- and a channel is switched on only while the main PLL is locked and the gateware asks for it.
  pub spll_update_aux_clock-Moves :
      (s : Softpll) (ch : ℕ) (a : Aux)
      → get_elem? s.aux (ch - 1) ≡ some a
      → Moves s ch a (spll_update_aux_clock div64 s ch).0 a.seq_state
  unfolding spll_update_aux_clock set_status set_seq
  spll_update_aux_clock-Moves s ch a e =
      elim (Bool-cases (not (is_off a.seq_state) && not (aux_locking_enabled ch s.regs))) [
        | inl z ↦
            let (b, there) = stop-there s ch a e in
            (
              aux_disabled,
              rw (spll_update_aux_clock, e, z)
                  (set_seq-channel (set_status (spll_stop_channel s ch) ch false) ch b aux_disabled
                    there),
              switched_off (ground arith),
            )
        | inr z ↦
            let (q, there, edge) = dispatch-Moves a.seq_state s ch a e refl in
            (q, rw (spll_update_aux_clock, e, z) there, edge)
      ]
