-- ===== src/Softpll/Irq.antt =====
-- update_ptrackers, update_loops and spll_irq_entry of softpll/softpll_ng.c. The tag FIFO is the
-- list of the words that TRR_R0 gives before TRR_CSR reads empty; clear_irq acknowledges the
-- interrupt at the CPU and is left out.
pub mod Modes
use wrpc_sw.Prelude.{
  ℕ, zero, suc, ◌+◌, ◌-◌, ◌*◌, ◌/◌, ◌%◌, ◌^◌, ◌≤◌, ◌<◌, min, bit_and, bit_or, ◌≡◌, refl, sym, ap,
  ◌∙◌, ◌≢◌, ◌↔◌, ◌⊎◌, inl, inr, Bool, true, false, not, ◌&&◌, ◌||◌, Option, none, some, List, [],
  ◌∷◌, ◌++◌, map, arith, length, get_or, set, get_elem?, ltb, leb, ◌==◌, if◌then◌else◌, Bool-cases,
  Option-cases, dec_lt, dec_le,
}
use wrpc_sw.Prelude.Int.{
  ℤ, pos, negsuc, pos_part, neg_part, ◌+ℤ◌, ◌-ℤ◌, ◌*ℤ◌, ◌≤ℤ◌, ◌<ℤ◌, ltb_ℤ, leb_ℤ, eqb_ℤ, i32, i64,
  sar, tdiv, neg, low_bits, Fits32, i32_of_Fits32, +ℤ_parts, -ℤ_parts, eq_of_parts, parts_of_eq,
  word_laws,
}
use wrpc_sw.Softpll.Regs.{Regs}
use wrpc_sw.Softpll.Helper.{Helper, helper_update}
use wrpc_sw.Softpll.Main.State.{Mpll}
use wrpc_sw.Softpll.Main.Update.{mpll_update}
use wrpc_sw.Softpll.Ptracker.{Ptracker, ptrackers_update, ptracker_update}
use wrpc_sw.Softpll.State.{
  Softpll, SeqState, Aux, AuxMode, phase_monitor, aux_slave, is_slave, ready,
}
use wrpc_sw.Softpll.Sequencer.{sequencing_fsm}

abbrev pub is_ready : SeqState → Bool
is_ready ready = true
is_ready _ = false

abbrev is_monitor : AuxMode → Bool
is_monitor phase_monitor = true
is_monitor aux_slave = false

-- The tracker of aux channel i, for a tag: its own tag is averaged, if the channel is a monitor.
unfoldable pub monitor_aux : Aux → ℕ → ℤ → ℤ → ℕ → Regs → Aux × ℤ × Regs
unfolding ptracker_update
monitor_aux a i tag_ref tag source r =
    if is_monitor a.mode && (source == r.n_chan_ref + i + 1)
    then (let tracker = a.tracker in
        let t = record tracker { dbg_channel = pos i } in
        if r.n_chan_ref == 0
        then (record a { tracker = t }, tag, r)
        else (let (t', r') = ptracker_update t tag_ref tag r in
            (record a { tracker = t' }, tag_ref, r')))
    else (a, tag_ref, r)

-- The loop over the aux channels from `i` on.
unfoldable pub monitor_auxes : List Aux → ℕ → ℤ → ℤ → ℕ → Regs → List Aux × ℤ × Regs
monitor_auxes [] i tag_ref tag source r = ([], tag_ref, r)
monitor_auxes (a ∷ as') i tag_ref tag source r =
    let (a', ref, r1) =
      if ltb (i + 1) r.n_chan_out then monitor_aux a i tag_ref tag source r else (a, tag_ref, r) in
    let (as'', ref', r2) = monitor_auxes as' (i + 1) ref tag source r1 in (a' ∷ as'', ref', r2)

unfoldable pub update_ptrackers : Softpll → ℤ → ℕ → Softpll
update_ptrackers s tag source =
    let (ps, ref, r) =
      if leb source s.regs.n_chan_ref
      then ptrackers_update s.ptrackers s.tag_ref tag source s.regs
      else (s.ptrackers, s.tag_ref, s.regs) in
    let (as', ref', r') = monitor_auxes s.aux 0 ref tag source r in
    record s { ptrackers = ps; aux = as'; tag_ref = ref'; regs = r' }

-- mpll_update of every aux channel from `i` on.
unfoldable pub update_auxes : List Aux → ℕ → ℤ → ℕ → Regs → List Aux × Regs
update_auxes [] i tag source r = ([], r)
update_auxes (a ∷ as') i tag source r =
    let (d, r1, b) = mpll_update a.dmtd tag source r in
    let run = ltb (i + 1) r.n_chan_out in
    let (as'', r2) = update_auxes as' (i + 1) tag source (if run then r1 else r) in
    ((if run then record a { dmtd = d } else a) ∷ as'', r2)

unfoldable pub update_loops : Softpll → ℤ → ℕ → Softpll
update_loops s tag source =
    let (helper, r) = helper_update s.helper tag source s.regs in
    let s1 = record s { helper = helper; regs = r } in
    let (mpll, r2, b) = mpll_update s1.mpll tag source r in
    let s2 = record s1 { mpll = mpll; regs = r2 } in
    let (as', r3) = update_auxes s2.aux 0 tag source r2 in
    let s3 = if is_slave s.mode then record s2 { aux = as'; regs = r3 } else s2 in
    if not helper.ld.locked
    then s1
    else if is_ready s.seq_state
    then update_ptrackers s3 tag source
    else s2

-- One word of the tag FIFO: the channel in bits 24 to 30, the tag in bits 0 to 23.
unfoldable pub process_tag : Softpll → ℕ → Softpll
process_tag s trr =
    let tag_source = trr / 2 ^ 24 % 2 ^ 7 in
    let tag_value = trr % 2 ^ 24 in
    update_loops (sequencing_fsm s tag_source) (pos tag_value) tag_source

unfoldable pub process_tags : Softpll → List ℕ → Softpll
process_tags s [] = s
process_tags s (trr ∷ trrs) = process_tags (process_tag s trr) trrs

unfoldable pub spll_irq_entry : Softpll → List ℕ → Softpll
spll_irq_entry s trrs =
    let t = process_tags s trrs in record t { irq_count = (t.irq_count + 1) % 2 ^ 32 }
