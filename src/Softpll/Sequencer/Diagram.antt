-- ===== src/Softpll/Sequencer/Diagram.antt =====
-- The sequencer's transition diagram: which states follow which in each mode, that `ready` is
-- entered and left on the locks alone, and what no mode reaches.
use wrpc_sw.Prelude.{
  ℕ, ◌≡◌, refl, sym, ◌∙◌, ◌≢◌, ◌⊎◌, inl, inr, Bool, true, false, not, ◌&&◌, ◌||◌, arith,
}
use wrpc_sw.Prelude.Int.{pos, ◌+ℤ◌, i32}
use mathlib.Core.Path.{subst₂}
use wrpc_sw.Softpll.Regs.{set_channel_status}
use wrpc_sw.Softpll.State.{
  Softpll, Mode, SeqState, disabled, free_running_master, grand_master, slave, is_grand_master,
  is_slave, is_disabled, start_ext, wait_ext, start_helper, wait_helper, start_main, wait_main,
  seq_disabled, ready, clear_dacs, wait_clear_dacs,
}
use wrpc_sw.Softpll.Sequencer.{
  sequencing_fsm, dispatch, count_tag, external_locked, external_start, enter_ready, lock_lost,
  do_ready,
}

-- A step from one state of the sequencer to another, in a mode.
pub data Edge (m : Mode) : SeqState → SeqState → Type 0 where
  stay : {a : SeqState} → Edge m a a
  cleared : Edge m clear_dacs wait_clear_dacs
  to_ext : is_grand_master m ≡ true → Edge m wait_clear_dacs start_ext
  to_helper : is_grand_master m ≡ false → Edge m wait_clear_dacs start_helper
  ext_started : Edge m start_ext wait_ext
  ext_locked : Edge m wait_ext ready
  helper_started : Edge m start_helper wait_helper
  to_main : is_slave m ≡ true → Edge m wait_helper start_main
  master_ready : is_slave m ≡ false → Edge m wait_helper ready
  main_started : Edge m start_main wait_main
  main_locked : Edge m wait_main ready
  lost : Edge m ready clear_dacs

seq-enter_ready : (s : Softpll) → (enter_ready s).seq_state ≡ ready
unfolding enter_ready
seq-enter_ready s = refl

-- Each state's case follows an edge.
dispatch-Edge :
    (q : SeqState) (s : Softpll) → s.seq_state ≡ q → Edge s.mode q (dispatch q s).seq_state
unfolding dispatch
dispatch-Edge seq_disabled s e = rw e stay
dispatch-Edge clear_dacs s e = cleared
dispatch-Edge wait_clear_dacs s e = grind (arith, stay, to_ext, to_helper)
dispatch-Edge start_ext s e = ext_started
dispatch-Edge wait_ext s e = grind (arith, stay, ext_locked, seq-enter_ready)
dispatch-Edge start_helper s e = helper_started
dispatch-Edge wait_helper s e = grind (arith, stay, to_main, master_ready, seq-enter_ready)
dispatch-Edge start_main s e = main_started
dispatch-Edge wait_main s e = grind (arith, stay, main_locked, seq-enter_ready)
dispatch-Edge ready s e = grind (arith, stay, lost)

-- What counting a tag leaves alone.
count_tag-keeps :
    (s : Softpll) (source : ℕ)
    → ((count_tag s source).seq_state ≡ s.seq_state)
      × ((count_tag s source).mode ≡ s.mode)
      × ((count_tag s source).helper ≡ s.helper)
      × ((count_tag s source).mpll ≡ s.mpll)
      × ((count_tag s source).regs ≡ s.regs)
      × ((count_tag s source).ext ≡ s.ext)
      × ((count_tag s source).delock_count ≡ s.delock_count)
unfolding count_tag
count_tag-keeps s source = ground arith

-- One run of sequencing_fsm takes the sequencer along an edge of the diagram for the mode it is in,
-- or leaves it where it is.
pub sequencing_fsm-Edge :
    (s : Softpll) (source : ℕ) → Edge s.mode s.seq_state (sequencing_fsm s source).seq_state
unfolding sequencing_fsm
sequencing_fsm-Edge s source =
    let k = count_tag-keeps s source in
    subst₂ (λ m q. Edge m q (sequencing_fsm s source).seq_state) k.1 k.0
      (dispatch-Edge (count_tag s source).seq_state (count_tag s source) refl)

-- The states that the sequencer can be in, in each mode.
unfoldable pub visits : Mode → SeqState → Bool
visits m clear_dacs = not (is_disabled m)
visits m wait_clear_dacs = not (is_disabled m)
visits m start_ext = is_grand_master m
visits m wait_ext = is_grand_master m
visits m start_helper = not (is_grand_master m) && not (is_disabled m)
visits m wait_helper = not (is_grand_master m) && not (is_disabled m)
visits m start_main = is_slave m
visits m wait_main = is_slave m
visits m seq_disabled = is_disabled m
visits m ready = not (is_disabled m)

pub Edge-visits : (m : Mode) {a b : SeqState} → Edge m a b → visits m a ≡ true → visits m b ≡ true
unfolding visits
Edge-visits m stay h = h
Edge-visits m cleared h = h
Edge-visits m (to_ext g) h = g
Edge-visits m (to_helper g) h = ground arith
Edge-visits m ext_started h = h
Edge-visits m ext_locked h = ground arith
Edge-visits m helper_started h = h
Edge-visits m (to_main g) h = g
Edge-visits m (master_ready g) h = ground arith
Edge-visits m main_started h = h
Edge-visits m main_locked h = ground arith
Edge-visits m lost h = h

-- What each state's case needs to reach `ready`.
abbrev ReadyFrom : SeqState → Softpll → Type 0
ReadyFrom wait_ext s = external_locked s ≡ true
ReadyFrom wait_helper s =
    (s.helper.ld.locked ≡ true) × (s.helper.ld.lock_changed ≡ true) × (is_slave s.mode ≡ false)
ReadyFrom wait_main s = s.mpll.locked ≡ true
ReadyFrom ready s = Unit
ReadyFrom _ s = ⊥

dispatch-ReadyFrom :
    (q : SeqState) (s : Softpll)
    → s.seq_state ≡ q
    → (dispatch q s).seq_state ≡ ready
    → ReadyFrom q s
unfolding dispatch external_start
dispatch-ReadyFrom seq_disabled s e h = ground arith
dispatch-ReadyFrom clear_dacs s e h = ground arith
dispatch-ReadyFrom wait_clear_dacs s e h = ground arith
dispatch-ReadyFrom start_ext s e h = ground arith
dispatch-ReadyFrom wait_ext s e h = ground arith
dispatch-ReadyFrom start_helper s e h = ground arith
dispatch-ReadyFrom wait_helper s e h = ground arith
dispatch-ReadyFrom start_main s e h = ground arith
dispatch-ReadyFrom wait_main s e h = ground arith
dispatch-ReadyFrom ready s e h = tt

locks-count_tag :
    (s : Softpll) (source : ℕ)
    → (external_locked (count_tag s source) ≡ external_locked s)
      × (lock_lost (count_tag s source) ≡ lock_lost s)
unfolding count_tag external_locked lock_lost
locks-count_tag s source = ground arith

-- The same, read off the state before the tag is counted.
ready_cases :
    (q : SeqState) (s : Softpll) (source : ℕ)
    → q ≡ s.seq_state
    → s.seq_state ≢ ready
    → ReadyFrom q (count_tag s source)
    → ((s.seq_state ≡ wait_ext) × (external_locked s ≡ true))
      ⊎ ((s.seq_state ≡ wait_helper)
          × (s.helper.ld.locked ≡ true)
          × (s.helper.ld.lock_changed ≡ true)
          × (is_slave s.mode ≡ false))
      ⊎ ((s.seq_state ≡ wait_main) × (s.mpll.locked ≡ true))
ready_cases wait_ext s source e n h = inl (sym e, sym (locks-count_tag s source).0 ∙ h)
ready_cases wait_helper s source e n h = inr (inl (ground (arith, count_tag-keeps s source)))
ready_cases wait_main s source e n h = inr (inr (ground (arith, count_tag-keeps s source)))
ready_cases ready s source e n h = absurd (n (sym e))
ready_cases _ s source e n h = absurd h

-- The sequencer becomes ready only from one of three states: from wait_ext with the external clock
-- locked, from wait_helper in a mode that is not slave with the helper just locked, or from
-- wait_main with the main PLL locked.
pub sequencing_fsm-ready :
    (s : Softpll) (source : ℕ)
    → s.seq_state ≢ ready
    → (sequencing_fsm s source).seq_state ≡ ready
    → ((s.seq_state ≡ wait_ext) × (external_locked s ≡ true))
      ⊎ ((s.seq_state ≡ wait_helper)
          × (s.helper.ld.locked ≡ true)
          × (s.helper.ld.lock_changed ≡ true)
          × (is_slave s.mode ≡ false))
      ⊎ ((s.seq_state ≡ wait_main) × (s.mpll.locked ≡ true))
unfolding sequencing_fsm
sequencing_fsm-ready s source h e =
    ready_cases (count_tag s source).seq_state s source (count_tag-keeps s source).0 h
      (dispatch-ReadyFrom (count_tag s source).seq_state (count_tag s source) refl e)

dispatch-lost :
    (t : Softpll)
    → (lock_lost t ≡ true
        → ((dispatch ready t).seq_state ≡ clear_dacs)
          × ((dispatch ready t).delock_count ≡ i32 (t.delock_count +ℤ pos 1))
          × ((dispatch ready t).regs ≡ set_channel_status t.mpll.id_ref false t.regs))
      × (lock_lost t ≡ false → dispatch ready t ≡ t)
unfolding dispatch
dispatch-lost t = (λ l. rw (l, do_ready) (refl, refl, refl), λ l. rw (l, do_ready))

lost_branches :
    (s : Softpll) (source : ℕ)
    → s.seq_state ≡ ready
    → let t = sequencing_fsm s source in
      (lock_lost s ≡ true
        → (t.seq_state ≡ clear_dacs)
          × (t.delock_count ≡ i32 (s.delock_count +ℤ pos 1))
          × (t.regs ≡ set_channel_status s.mpll.id_ref false s.regs))
      × (lock_lost s ≡ false
          → (t.seq_state ≡ ready) × (t.delock_count ≡ s.delock_count) × (t.regs ≡ s.regs))
unfolding sequencing_fsm
lost_branches s source e =
    let k = count_tag-keeps s source in
    rw (k.0 ∙ e) (
      λ l.
          let d = (dispatch-lost t).0 (lost ∙ l) in
          (d.0, ground (arith, d.1, k), ground (arith, d.2, k)),
      λ l. let d = (dispatch-lost t).1 (lost ∙ l) in rw d (k.0 ∙ e, k.6, k.4),
    )
  where
    t : Softpll
    t = count_tag s source

    lost : lock_lost t ≡ lock_lost s
    lost = (locks-count_tag s source).1

-- The locks that a mode needs.
abbrev pub LocksHeld : Mode → Softpll → Type 0
LocksHeld grand_master s = (external_locked s ≡ true) × (s.helper.ld.locked ≡ true)
LocksHeld slave s = (s.helper.ld.locked ≡ true) × (s.mpll.locked ≡ true)
LocksHeld _ s = s.helper.ld.locked ≡ true

two_locks :
    (a b l : Bool)
    → l ≡ not a || not b
    → ((l ≡ false) × ((a ≡ true) × (b ≡ true))) ⊎ ((l ≡ true) × ¬ ((a ≡ true) × (b ≡ true)))
two_locks true true l e = inl (e, (refl, refl))
two_locks true false l e = inr (e, λ p. cc p.1)
two_locks false b l e = inr (e, λ p. cc p.0)

one_lock : (a l : Bool) → l ≡ not a → ((l ≡ false) × (a ≡ true)) ⊎ ((l ≡ true) × ¬ (a ≡ true))
one_lock true l e = inl (e, refl)
one_lock false l e = inr (e, λ p. cc p)

lock_lost-cases :
    (m : Mode) (s : Softpll)
    → s.mode ≡ m
    → ((lock_lost s ≡ false) × LocksHeld m s) ⊎ ((lock_lost s ≡ true) × ¬ LocksHeld m s)
unfolding lock_lost
lock_lost-cases disabled s e = one_lock s.helper.ld.locked (lock_lost s) (ground (arith, e))
lock_lost-cases grand_master s e =
    two_locks (external_locked s) s.helper.ld.locked (lock_lost s) (ground (arith, e))
lock_lost-cases free_running_master s e =
    one_lock s.helper.ld.locked (lock_lost s) (ground (arith, e))
lock_lost-cases slave s e =
    two_locks s.helper.ld.locked s.mpll.locked (lock_lost s) (ground (arith, e))

-- A ready sequencer stays ready, with the delock count and the registers as they were, as long as the
-- locks that its mode needs are held: the helper's in every mode, the external clock's too in a grand
-- master, the main PLL's too in a slave. If one of them is missing it goes back to clearing the DACs,
-- counts the loss, and clears the channel's lock bit.
pub sequencing_fsm-lost :
    (s : Softpll) (source : ℕ)
    → s.seq_state ≡ ready
    → let t = sequencing_fsm s source in
      (LocksHeld s.mode s
        × (t.seq_state ≡ ready)
        × (t.delock_count ≡ s.delock_count)
        × (t.regs ≡ s.regs))
      ⊎ ((¬ LocksHeld s.mode s)
          × (t.seq_state ≡ clear_dacs)
          × (t.delock_count ≡ i32 (s.delock_count +ℤ pos 1))
          × (t.regs ≡ set_channel_status s.mpll.id_ref false s.regs))
sequencing_fsm-lost s source e = elim (lock_lost-cases s.mode s refl) [
  | inl (l, held) ↦
      let (state, count, regs) = (lost_branches s source e).1 l in inl (held, state, count, regs)
  | inr (l, missing) ↦
      let (state, count, regs) = (lost_branches s source e).0 l in inr (missing, state, count, regs)
]
