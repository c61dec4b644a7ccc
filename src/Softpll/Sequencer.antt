-- ===== src/Softpll/Sequencer.antt =====
-- sequencing_fsm, update_loops, update_ptrackers, start_ptrackers and spll_irq_entry of
-- softpll/softpll_ng.c, with external_start and external_locked of softpll/spll_external.c. Counters
-- that are `unsigned` wrap at 2^32.
pub mod Diagram
use wrpc_sw.Prelude.{
  ℕ, zero, suc, ◌+◌, ◌-◌, ◌*◌, ◌/◌, ◌%◌, ◌^◌, ◌≤◌, ◌<◌, min, bit_and, bit_or, ◌≡◌, refl, sym, ap,
  ◌∙◌, ◌≢◌, ◌↔◌, ◌⊎◌, inl, inr, Bool, true, false, not, ◌&&◌, ◌||◌, Option, none, some, List, [],
  ◌∷◌, ◌++◌, map, arith, length, get_or, set, get_elem?, ltb, leb, ◌==◌, if◌then◌else◌, Bool-cases,
  Option-cases, dec_lt, dec_le,
}
use wrpc_sw.Prelude.Int.{
  ℤ, pos, negsuc, pos_part, neg_part, ◌+ℤ◌, ◌-ℤ◌, ◌*ℤ◌, ◌≤ℤ◌, ◌<ℤ◌, ltb_ℤ, leb_ℤ, eqb_ℤ, i32, i64,
  sar, tdiv, neg, low_bits, Fits32, i32_of_Fits32, +ℤ_parts, -ℤ_parts, eq_of_parts, parts_of_eq,
  word_laws,
}
use wrpc_sw.Softpll.Config.{tics_per_second, time_after}
use wrpc_sw.Softpll.Regs.{
  Regs, spll_enable_tagger, spll_debug, set_channel_status, test_bit, set_bit,
}
use wrpc_sw.Softpll.Helper.{Helper, helper_start, helper_update}
use wrpc_sw.Softpll.Main.State.{Mpll, mpll_start}
use wrpc_sw.Softpll.Main.Update.{mpll_update}
use wrpc_sw.Softpll.Ptracker.{Ptracker, ptracker_start, ptrackers_update, ptracker_update}
use wrpc_sw.Softpll.State.{
  Softpll, Mode, SeqState, AlignState, Ext, Aux, AuxMode, phase_monitor, aux_slave, is_grand_master,
  is_slave, start_ext, wait_ext, start_helper, wait_helper, start_main, wait_main, seq_disabled,
  ready, clear_dacs, wait_clear_dacs, ext_off, wait_clkin, wait_plock, start, start_main_pll,
  init_csync, wait_csync,
}

-- ECCR: EXT_EN is bit 0, EXT_REF_LOCKED bit 2, EXT_REF_STOPPED bit 3.
unfoldable pub external_start : Softpll → Softpll
external_start s =
    let (helper, r) = helper_start s.helper s.regs in
    let ext = s.ext in
    record s {
      helper = helper;
      ext = record ext { align_state = wait_clkin; enabled = true };
      regs = spll_debug 2 6 (pos 1) true (record r { eccr = 1 });
    }

abbrev pub aligned : AlignState → Bool
aligned ext_off = false
aligned wait_clkin = false
aligned wait_plock = false
aligned start = false
aligned start_main_pll = false
aligned init_csync = false
aligned wait_csync = false
aligned _ = true

unfoldable pub external_locked : Softpll → Bool
external_locked s =
    if not s.helper.ld.locked
      || not s.mpll.locked
      || not (test_bit s.regs.eccr 2)
      || test_bit s.regs.eccr 3
    then false
    else aligned s.ext.align_state

-- The trackers whose bit of `mask` is set, started, for the channels from `i` on.
unfoldable pub start_from : List Ptracker → ℕ → ℕ → Regs → List Ptracker × Regs
start_from [] i mask r = ([], r)
start_from (p ∷ ps) i mask r =
    let (p', r') = if ltb i r.n_chan_ref && test_bit mask i then ptracker_start p r else (p, r) in
    let (ps', r'') = start_from ps (i + 1) mask r' in (p' ∷ ps', r'')

unfoldable pub start_ptrackers : Softpll → Softpll
start_ptrackers s =
    let (ps, r) = start_from s.ptrackers 0 s.ptracker_mask s.regs in
    record s { ptrackers = ps; regs = r }

-- What the three ways into `ready` have in common.
unfoldable pub enter_ready : Softpll → Softpll
enter_ready s =
    let t = start_ptrackers s in
    record t { seq_state = ready; regs = set_channel_status t.mpll.id_ref true t.regs }

-- One case of the switch for each state.
unfoldable pub do_clear_dacs : Softpll → Softpll
do_clear_dacs s =
    let r = s.regs in
    let cleared = record r {
      dac_hpll = low_bits 32 s.helper.pi.y_max;
      dac_main = low_bits 32 (tdiv (i32 (s.mpll.pi.y_max +ℤ s.mpll.pi.y_min)) (pos 2));
    } in
    record s {
      regs = spll_enable_tagger r.n_chan_ref true cleared;
      dac_timeout = (r.tics + tics_per_second / 20) % 2 ^ 32;
      seq_state = wait_clear_dacs;
    }

unfoldable pub do_wait_clear_dacs : Softpll → Softpll
do_wait_clear_dacs s =
    if time_after s.regs.tics s.dac_timeout
    then record s { seq_state = if is_grand_master s.mode then start_ext else start_helper }
    else s

unfoldable pub do_start_ext : Softpll → Softpll
do_start_ext s =
    let t =
      external_start (record s { regs = spll_enable_tagger s.regs.n_chan_ref false s.regs }) in
    record t { seq_state = wait_ext }

unfoldable pub do_wait_ext : Softpll → Softpll
do_wait_ext s = if external_locked s then enter_ready s else s

unfoldable pub do_start_helper : Softpll → Softpll
do_start_helper s =
    let (helper, r) = helper_start s.helper s.regs in
    record s { helper = helper; regs = r; seq_state = wait_helper }

unfoldable pub do_wait_helper : Softpll → Softpll
do_wait_helper s =
    if s.helper.ld.locked && s.helper.ld.lock_changed
    then if is_slave s.mode then record s { seq_state = start_main } else enter_ready s
    else s

unfoldable pub do_start_main : Softpll → Softpll
do_start_main s =
    let (mpll, r) = mpll_start s.mpll s.regs in
    record s { mpll = mpll; regs = r; seq_state = wait_main }

unfoldable pub do_wait_main : Softpll → Softpll
do_wait_main s = if s.mpll.locked then enter_ready s else s

-- What takes the sequencer out of `ready`.
unfoldable pub lock_lost : Softpll → Bool
lock_lost s =
    (is_grand_master s.mode && not (external_locked s))
    || not s.helper.ld.locked
    || (is_slave s.mode && not s.mpll.locked)

unfoldable pub do_ready : Softpll → Softpll
do_ready s =
    if lock_lost s
    then record s {
      delock_count = i32 (s.delock_count +ℤ pos 1);
      seq_state = clear_dacs;
      regs = set_channel_status s.mpll.id_ref false s.regs;
    }
    else s

unfoldable pub dispatch : SeqState → Softpll → Softpll
unfolding do_clear_dacs do_wait_clear_dacs do_start_ext do_wait_ext do_start_helper do_wait_helper
    do_start_main do_wait_main do_ready
dispatch seq_disabled s = s
dispatch clear_dacs s = do_clear_dacs s
dispatch wait_clear_dacs s = do_wait_clear_dacs s
dispatch start_ext s = do_start_ext s
dispatch wait_ext s = do_wait_ext s
dispatch start_helper s = do_start_helper s
dispatch wait_helper s = do_wait_helper s
dispatch start_main s = do_start_main s
dispatch wait_main s = do_wait_main s
dispatch ready s = do_ready s

unfoldable pub count_tag : Softpll → ℕ → Softpll
count_tag s tag_source =
    if tag_source == s.regs.n_chan_ref
    then record s { tag_count = (s.tag_count + 1) % 2 ^ 32 }
    else if tag_source == 0
    then record s { ref_count = (s.ref_count + 1) % 2 ^ 32 }
    else s

unfoldable pub sequencing_fsm : Softpll → ℕ → Softpll
unfolding dispatch count_tag
sequencing_fsm s tag_source = let t = count_tag s tag_source in dispatch t.seq_state t
