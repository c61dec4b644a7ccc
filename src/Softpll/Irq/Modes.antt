-- ===== src/Softpll/Irq/Modes.antt =====
-- What the interrupt handler keeps of the mode and the sequencer, over any tags.
use wrpc_sw.Prelude.{ℕ, ◌/◌, ◌%◌, ◌^◌, ◌≡◌, refl, ◌∙◌, true, List, [], ◌∷◌, arith}
use wrpc_sw.Prelude.Int.{ℤ, pos}
use wrpc_sw.Softpll.State.{Softpll, SeqState}
use wrpc_sw.Softpll.State.{
  start_ext, wait_ext, start_helper, wait_helper, start_main, wait_main, seq_disabled, ready,
  clear_dacs, wait_clear_dacs,
}
use wrpc_sw.Softpll.Sequencer.{
  sequencing_fsm, dispatch, count_tag, enter_ready, start_ptrackers, external_start,
}
use wrpc_sw.Softpll.Sequencer.Diagram.{visits, Edge-visits, sequencing_fsm-Edge}
use wrpc_sw.Softpll.Irq.{update_loops, update_ptrackers, process_tag, process_tags, spll_irq_entry}

mode-enter_ready : (s : Softpll) → (enter_ready s).mode ≡ s.mode
unfolding enter_ready start_ptrackers
mode-enter_ready s = refl

mode-dispatch : (q : SeqState) (s : Softpll) → (dispatch q s).mode ≡ s.mode
unfolding dispatch external_start
mode-dispatch seq_disabled s = refl
mode-dispatch clear_dacs s = refl
mode-dispatch wait_clear_dacs s = ground arith
mode-dispatch start_ext s = refl
mode-dispatch wait_ext s = ground (arith, mode-enter_ready s)
mode-dispatch start_helper s = refl
mode-dispatch wait_helper s = ground (arith, mode-enter_ready s)
mode-dispatch start_main s = refl
mode-dispatch wait_main s = ground (arith, mode-enter_ready s)
mode-dispatch ready s = ground arith

mode-sequencing_fsm : (s : Softpll) (source : ℕ) → (sequencing_fsm s source).mode ≡ s.mode
unfolding sequencing_fsm
mode-sequencing_fsm s source =
    mode-dispatch (count_tag s source).seq_state (count_tag s source) ∙ counted
  where
    counted : (count_tag s source).mode ≡ s.mode
    counted = unfold count_tag in ground arith

update_loops-keeps :
    (s : Softpll) (tag : ℤ) (source : ℕ)
    → ((update_loops s tag source).mode ≡ s.mode)
      × ((update_loops s tag source).seq_state ≡ s.seq_state)
unfolding update_loops update_ptrackers
update_loops-keeps s tag source = ground arith

process_tag-visits :
    (s : Softpll) (trr : ℕ)
    → visits s.mode s.seq_state ≡ true
    → let t = process_tag s trr in (t.mode ≡ s.mode) × (visits t.mode t.seq_state ≡ true)
unfolding process_tag
process_tag-visits s trr h =
    let source = trr / 2 ^ 24 % 2 ^ 7 in
    let t = sequencing_fsm s source in
    let k = update_loops-keeps t (pos (trr % 2 ^ 24)) source in
    let m = mode-sequencing_fsm s source in
    let v : visits t.mode t.seq_state ≡ true =
      rw m (Edge-visits s.mode (sequencing_fsm-Edge s source) h) in
    (k.0 ∙ m, rw (k.0, k.1) v)

process_tags-visits :
    (s : Softpll) (trrs : List ℕ)
    → visits s.mode s.seq_state ≡ true
    → let t = process_tags s trrs in (t.mode ≡ s.mode) × (visits t.mode t.seq_state ≡ true)
unfolding process_tags
process_tags-visits s [] h = (refl, h)
process_tags-visits s (trr ∷ trrs) h =
    let (m, v) = process_tag-visits s trr h in
    let (m', v') = process_tags-visits (process_tag s trr) trrs v in (m' ∙ m, v')

-- Whatever tags an interrupt brings, the handler leaves the mode alone, and a sequencer in a state
-- that its mode visits stays in such states: start_ext and wait_ext are visited by the grand master
-- alone, start_main and wait_main by the slave alone, start_helper and wait_helper by the slave and
-- the free running master, seq_disabled in the disabled mode alone, and the others in every mode
-- but that.
pub spll_irq_entry-visits :
    (s : Softpll) (trrs : List ℕ)
    → visits s.mode s.seq_state ≡ true
    → let t = spll_irq_entry s trrs in (t.mode ≡ s.mode) × (visits t.mode t.seq_state ≡ true)
unfolding spll_irq_entry
spll_irq_entry-visits s trrs h = process_tags-visits s trrs h
