-- ===== src/Softpll/Api.antt =====
-- Set-up and the remaining calls of softpll/softpll_ng.c. Reads of the channel counts are of CSR's
-- fields N_REF (bits 16 to 21) and N_OUT (bits 24 to 26). `PPS_WIDTH` is a parameter of the board;
-- CONFIG_SPLL_DEGLITCH_THR has its default, 1000. The tag FIFO and the debug FIFO, which spll_init
-- empties, are not part of this state.
use wrpc_sw.Prelude.{
  ℕ, zero, suc, ◌+◌, ◌*◌, ◌/◌, ◌%◌, ◌^◌, bit_or, Bool, true, false, not, ◌&&◌, Option, none, some,
  List, [], ◌∷◌, get_or, set, get_elem?, ltb, ◌==◌, if◌then◌else◌,
}
use wrpc_sw.Prelude.Int.{ℤ, pos, ◌+ℤ◌, ◌-ℤ◌, ◌*ℤ◌, ltb_ℤ, leb_ℤ, i32, low_bits}
use wrpc_sw.Softpll.Config.{hpll_n, divide_dmtd_clocks_by_2}
use wrpc_sw.Softpll.Regs.{Regs, set_bit, clear_bit, test_bit, spll_enable_tagger}
use wrpc_sw.Softpll.Pi.{Pi}
use wrpc_sw.Softpll.Helper.{helper_init, helper_very_init}
use wrpc_sw.Softpll.Main.State.{Mpll, GainSched, no_item, mpll_init}
use wrpc_sw.Softpll.Main.Phase.{to_picos}
use wrpc_sw.Softpll.Ptracker.{Ptracker, ptracker_init, ptracker_start}
use wrpc_sw.Softpll.External.{external_init}
use wrpc_sw.Softpll.AuxChannel.{modify_aux}
use wrpc_sw.Softpll.State.{
  Softpll, Mode, disabled, Aux, AuxMode, aux_disabled, is_grand_master, is_slave, is_disabled,
  clear_dacs, seq_disabled,
}

-- `spll_n_chan_ref` and `spll_n_chan_out`, from CSR.
unfoldable pub read_channels : Regs → Regs
read_channels r =
    let n_out = r.csr / 2 ^ 24 % 8 in
    record r { n_chan_ref = r.csr / 2 ^ 16 % 64; n_chan_out = if ltb 3 n_out then 3 else n_out }

-- spll_very_init, on the state that memset has cleared.
unfoldable pub spll_very_init : ℕ → Softpll → Softpll
spll_very_init pps_width zeroed =
    let mpll = zeroed.mpll in
    let r = zeroed.regs in
    record zeroed {
      mode = disabled;
      mpll = record mpll { gain_sched = none };
      helper = helper_very_init zeroed.helper;
      regs = read_channels (record r { ppsg_escr = 0; ppsg_cr = 3 + pps_width % 2 ^ 28 * 16 });
    }

-- The aux loop of spll_init, from channel i on.
unfoldable pub init_auxes : List Aux → ℕ → ℕ → Regs → List Aux
init_auxes [] i id_ref r = []
init_auxes (a ∷ as') i id_ref r =
    (if ltb (i + 1) r.n_chan_out
      then record a {
        dmtd = mpll_init a.dmtd id_ref (r.n_chan_ref + i + 1) r;
        seq_state = aux_disabled;
      }
      else a)
    ∷ init_auxes as' (i + 1) id_ref r

unfoldable pub init_trackers : List Ptracker → ℕ → Regs → List Ptracker
init_trackers [] i r = []
init_trackers (p ∷ ps) i r =
    (if ltb i r.n_chan_ref then ptracker_init p i (pos 512) else p) ∷ init_trackers ps (i + 1) r

-- The registers that spll_init clears; `SPLL->CSR = 0` leaves the read-only channel counts.
unfoldable pub clear_regs : Regs → Regs
clear_regs r = record r {
  ocer = 0;
  rcer = 0;
  eccr = 0;
  occr = 0;
  dac_hpll = 0;
  irq_unmasked = false;
  cpu_irq = false;
  deglitch_thr = 1000;
  ppsg_cr = bit_or r.ppsg_cr 2;
}

-- `eccr` is what ECCR reads after it was cleared: its bit 1 says that the hardware has the external
-- clock. On other hardware the grand master mode is given up half way.
unfoldable pub spll_init : Softpll → Mode → ℕ → ℕ → ℕ → Softpll
spll_init s mode slave_ref_channel eccr ljd =
    let r0 = clear_regs (read_channels s.regs) in
    let r = record r0 { eccr = eccr } in
    let helper_ref = if is_slave mode then slave_ref_channel else r.n_chan_ref in
    let t = record s {
      mode = mode;
      delock_count = pos 0;
      ref_count = 0;
      tag_count = 0;
      regs = r;
      seq_state = if is_disabled mode then seq_disabled else clear_dacs;
      helper = helper_init s.helper helper_ref;
      mpll = mpll_init s.mpll slave_ref_channel r.n_chan_ref r;
      aux = init_auxes s.aux 0 slave_ref_channel r;
      ptrackers = init_trackers s.ptrackers 0 r;
    } in
    if is_grand_master mode && not (test_bit eccr 1)
    then t
    else let u = if is_grand_master mode then external_init t ljd else t in
      let r' = u.regs in
      if is_disabled mode then u else record u {
        regs = record r' { irq_unmasked = true; ocer = bit_or r'.ocer 1; cpu_irq = true };
      }

unfoldable pub spll_shutdown : Softpll → Softpll
spll_shutdown s =
    let r = s.regs in
    record s {
      regs = record r { ocer = 0; rcer = 0; eccr = 0; irq_unmasked = false; cpu_irq = false };
    }

-- The phase in picoseconds, whether the tracker is enabled in the mask, and whether it is ready.
unfoldable pub wrap_phase : ℤ → ℤ
wrap_phase phase =
    let p =
      if ltb_ℤ phase (pos 0)
      then i32 (phase +ℤ pos (2 ^ hpll_n))
      else if leb_ℤ (pos (2 ^ hpll_n)) phase
      then i32 (phase -ℤ pos (2 ^ hpll_n))
      else phase in
    if divide_dmtd_clocks_by_2 then pos (low_bits hpll_n (i32 (p *ℤ pos 2))) else p

unfoldable pub spll_read_ptracker : Softpll → ℕ → Option (ℤ × Bool × Bool)
spll_read_ptracker s channel = elim (get_elem? s.ptrackers channel) [
  | none ↦ none
  | some p ↦ some (to_picos (wrap_phase p.phase_val), test_bit s.ptracker_mask p.id, p.ready)
]

unfoldable pub modify_tracker : List Ptracker → ℕ → (Ptracker → Ptracker) → List Ptracker
modify_tracker [] i f = []
modify_tracker (p ∷ ps) zero f = f p ∷ ps
modify_tracker (p ∷ ps) (suc i) f = p ∷ modify_tracker ps i f

unfoldable pub spll_set_ptracker_average_samples : Softpll → ℕ → ℤ → Softpll
spll_set_ptracker_average_samples s channel nsamples =
    let r = s.regs in
    record s {
      ptrackers = modify_tracker s.ptrackers channel (λ (p : Ptracker). record p {
        preserve_sign = 0;
        ready = false;
        acc = pos 0;
        avg_count = pos 0;
        n_avg = nsamples;
      });
      regs = record r { cpu_irq = true };
    }

unfoldable pub spll_enable_ptracker : Softpll → ℕ → Bool → Softpll
spll_enable_ptracker s ref_channel enable =
    if enable
    then elim (get_elem? s.ptrackers ref_channel) [
      | none ↦ record s { ptracker_mask = set_bit s.ptracker_mask ref_channel }
      | some p ↦
          let (p', r) = ptracker_start p s.regs in
          record s {
            ptrackers = set s.ptrackers ref_channel p';
            regs = r;
            ptracker_mask = set_bit s.ptracker_mask ref_channel;
          }
    ]
    else record s {
      ptracker_mask = clear_bit s.ptracker_mask ref_channel;
      regs =
          if ref_channel == s.mpll.id_ref
          then s.regs
          else spll_enable_tagger ref_channel false s.regs;
    }

-- The channel -1 of spll_get_dac and spll_set_dac, and the others.
pub data DacIndex : Type 0 where
  helper_dac : DacIndex
  channel_dac : ℕ → DacIndex

unfoldable pub spll_get_dac : Softpll → DacIndex → ℤ
spll_get_dac s helper_dac = s.helper.pi.y
spll_get_dac s (channel_dac zero) = s.mpll.pi.y
spll_get_dac s (channel_dac (suc i)) = elim (get_elem? s.aux i) [
  | none ↦ pos 0
  | some a ↦ a.dmtd.pi.y
]

abbrev with_y : Pi → ℤ → Pi
with_y pi v = record pi { y = v }

abbrev with_dac : Mpll → ℤ → Mpll
with_dac m v = record m { pi = with_y m.pi v }

unfoldable pub spll_set_dac : Softpll → DacIndex → ℤ → Softpll
spll_set_dac s helper_dac v =
    let h = s.helper in
    let r = s.regs in
    record s {
      helper = record h { pi = with_y h.pi v };
      regs = record r { dac_hpll = low_bits 32 v };
    }
spll_set_dac s (channel_dac zero) v =
    let r = s.regs in
    record s { mpll = with_dac s.mpll v; regs = record r { dac_main = low_bits 16 v } }
spll_set_dac s (channel_dac (suc i)) v =
    let r = s.regs in
    record s {
      aux = modify_aux s.aux i (λ (a : Aux). record a { dmtd = with_dac a.dmtd v });
      regs = record r { dac_main = suc i % 16 * 2 ^ 24 + low_bits 16 v };
    }

unfoldable pub spll_set_gain_schedule : Softpll → Option GainSched → Softpll
spll_set_gain_schedule s sch =
    let m = s.mpll in
    let r = s.regs in
    record s { mpll = record m { gain_sched = sch }; regs = record r { cpu_irq = true } }

-- SPLL_LOOP_HELPER and SPLL_LOOP_MAIN; any other number changes nothing.
pub data Loop : Type 0 where
  loop_helper loop_main : Loop

abbrev with_gains : Pi → ℤ → ℤ → ℕ → Pi
with_gains pi kp ki shift = record pi { kp = kp; ki = ki; shift = shift }

-- The stage's gains, and the controller's if the stage is the current one.
unfoldable pub set_stage_gain : Mpll → GainSched → ℕ → ℤ → ℤ → ℕ → Mpll
set_stage_gain m g stage kp ki shift =
    let item = get_or g.stages stage no_item in
    record m {
      gain_sched = some (record g {
        stages = set g.stages stage (record item { kp = kp; ki = ki; shift = shift });
      });
      pi = if g.current_stage == stage then with_gains m.pi kp ki shift else m.pi;
    }

unfoldable pub spll_set_pi_gain : Softpll → Loop → ℕ → ℤ → ℤ → ℕ → Softpll
unfolding set_stage_gain
spll_set_pi_gain s loop_helper stage kp ki shift =
    let h = s.helper in
    let r = s.regs in
    record s {
      helper = record h { pi = with_gains h.pi kp ki shift };
      regs = record r { cpu_irq = true };
    }
spll_set_pi_gain s loop_main stage kp ki shift =
    let m = s.mpll in
    let r = s.regs in
    let plain = record m { pi = with_gains m.pi kp ki shift } in
    record s {
      mpll = elim m.gain_sched [
        | none ↦ plain
        | some g ↦ if ltb stage g.n_stages then set_stage_gain m g stage kp ki shift else plain
      ];
      regs = record r { cpu_irq = true };
    }

unfoldable pub spll_set_pi_gain_kp_ki : Softpll → Loop → ℤ → ℤ → Softpll
spll_set_pi_gain_kp_ki s loop_helper kp ki =
    let h = s.helper in
    let r = s.regs in
    record s {
      helper = record h { pi = with_gains h.pi kp ki h.pi.shift };
      regs = record r { cpu_irq = true };
    }
spll_set_pi_gain_kp_ki s loop_main kp ki =
    let m = s.mpll in
    let r = s.regs in
    record s {
      mpll = record m { pi = with_gains m.pi kp ki m.pi.shift };
      regs = record r { cpu_irq = true };
    }

unfoldable pub spll_set_aux_mode : Softpll → ℕ → AuxMode → Softpll
spll_set_aux_mode s channel mode = record s {
  aux = modify_aux s.aux channel (λ (a : Aux). record a { mode = mode });
}

unfoldable pub spll_pshifter_freeze : Softpll → Bool → Softpll
spll_pshifter_freeze s freeze =
    let m = s.mpll in record s { mpll = record m { ps_freeze = freeze } }

unfoldable pub spll_vco_freeze : Softpll → Bool → Softpll
spll_vco_freeze s freeze = let m = s.mpll in record s { mpll = record m { vco_freeze = freeze } }

unfoldable pub spll_update_ext_pps_latency_ps : Softpll → ℤ → Softpll
spll_update_ext_pps_latency_ps s offset_ps =
    let e = s.ext in record s { ext = record e { pps_latency_ps = offset_ps } }
