-- ===== src/Softpll/External.antt =====
-- The rest of softpll/spll_external.c, as CONFIG_WR_NODE builds it: external_init, align_sample,
-- get_pps_latency and external_align_fsm. `scb_ljd_present_global` is the argument `ljd`; it is an
-- index into ext_pps_latency too. `div64` is ppsi's __div64_32.
pub mod Diagram
use wrpc_sw.Prelude.{
  ℕ, zero, suc, ◌+◌, ◌-◌, ◌*◌, ◌/◌, ◌%◌, ◌^◌, ◌≤◌, ◌<◌, min, bit_and, bit_or, ◌≡◌, refl, sym, ap,
  ◌∙◌, ◌≢◌, ◌↔◌, ◌⊎◌, inl, inr, Bool, true, false, not, ◌&&◌, ◌||◌, Option, none, some, List, [],
  ◌∷◌, ◌++◌, map, arith, length, get_or, set, get_elem?, ltb, leb, ◌==◌, if◌then◌else◌, Bool-cases,
  Option-cases, dec_lt, dec_le,
}
use wrpc_sw.Prelude.Int.{
  ℤ, pos, negsuc, pos_part, neg_part, ◌+ℤ◌, ◌-ℤ◌, ◌*ℤ◌, ◌≤ℤ◌, ◌<ℤ◌, ltb_ℤ, leb_ℤ, eqb_ℤ, i32, i64,
  sar, tdiv, neg, low_bits, Fits32, i32_of_Fits32, +ℤ_parts, -ℤ_parts, eq_of_parts, parts_of_eq,
  word_laws,
}
use wrpc_sw.Softpll.Config.{tics_per_second, time_after, time_after_eq}
use wrpc_sw.Softpll.Regs.{Regs, test_bit, set_bit, clear_bit}
use wrpc_sw.Softpll.Helper.{Helper, helper_init}
use wrpc_sw.Softpll.Main.State.{Mpll, mpll_init, mpll_start}
use wrpc_sw.Softpll.Main.Phase.{mpll_set_phase_shift, mpll_shifter_busy}
use wrpc_sw.Softpll.Sequencer.{external_locked}
use wrpc_sw.Softpll.State.{
  Softpll, Ext, AlignState, ext_off, wait_clkin, wait_plock, start, start_main_pll, init_csync,
  wait_csync, start_alignment, wait_sample, compensate_delay, align_locked,
}

abbrev pub align_sample_period : ℕ
align_sample_period = 10000000

abbrev pub ext_period_ns : ℕ
ext_period_ns = 100

abbrev pub ext_freq_hz : ℕ
ext_freq_hz = 10000000

unfoldable pub external_init : Softpll → ℕ → Softpll
external_init s ljd =
    let r = s.regs in
    let base = r.n_chan_ref + r.n_chan_out in
    let idx = if ljd == 0 then base else base + 1 in
    let ext = s.ext in
    record s {
      helper = helper_init s.helper idx;
      mpll = mpll_init s.mpll idx r.n_chan_ref r;
      ext = record ext { align_state = ext_off; enabled = false };
    }

-- A sample in nanoseconds, if there is a usable one, and the registers after the acknowledgement.
unfoldable pub align_sample : ℕ → Regs → Option ℕ × Regs
align_sample channel r =
    let ci = r.al_cin in
    if test_bit r.al_cr channel
    then (
      if ltb 100 ci && ltb ci (ext_freq_hz - 100) then some (ci * ext_period_ns) else none,
      record r { al_cr = 2 ^ channel },
    )
    else (none, r)

-- A latency of the table; a selector outside it takes the first.
unfoldable pub get_pps_latency : ℕ → ℤ
get_pps_latency sel = get_or (pos 37300 ∷ negsuc 4499 ∷ pos 111395 ∷ pos 16000 ∷ []) sel (pos 37300)

abbrev go : AlignState → Softpll → Softpll
go q s = let ext = s.ext in record s { ext = record ext { align_state = q } }

-- Each case returns the new state and `done_sth`.
unfoldable pub do_wait_clkin : ℕ → Softpll → Softpll × Bool
do_wait_clkin ljd s =
    let r = s.regs in
    if (ljd == 0) && not (test_bit r.eccr 3)
    then (go wait_plock (record s { regs = record r { eccr = set_bit r.eccr 31 } }), true)
    else (s, false)

unfoldable pub do_wait_plock : Softpll → Softpll × Bool
do_wait_plock s =
    let r = s.regs in
    let t = record s { regs = record r { eccr = clear_bit r.eccr 31 } } in
    (
      if test_bit t.regs.eccr 3
          then go wait_clkin t
          else if test_bit t.regs.eccr 2
          then go start t
          else t,
      true,
    )

unfoldable pub timed_out : Softpll → Bool
timed_out s = time_after s.regs.tics ((s.ext.timeout + 5 * tics_per_second) % 2 ^ 32)

unfoldable pub do_start : Softpll → Softpll × Bool
do_start s =
    let (mpll, r) = mpll_start s.mpll s.regs in
    if s.helper.ld.locked
    then (go start_main_pll (record s { mpll = mpll; regs = record r { cpu_irq = true } }), true)
    else (if timed_out s then go wait_clkin s else s, false)

-- PPSG_CR_CNT_EN | PPSG_CR_PWIDTH_W(10) is 0xa2, PPSG_ESCR_SYNC is 1.
unfoldable pub do_start_main_pll : Softpll → Softpll × Bool
do_start_main_pll s0 =
    let r0 = s0.regs in
    let r = record r0 { al_cr = 2 } in
    let s = record s0 { regs = r } in
    if s.helper.ld.locked && s.mpll.locked
    then (
      go init_csync
          (record s { regs = record r { ppsg_cr = 0xa2; ppsg_adj_nsec = 5; ppsg_escr = 1 } }),
      true,
    )
    else (if timed_out s then go wait_clkin s else s, false)

unfoldable pub do_init_csync : Softpll → Softpll × Bool
do_init_csync s =
    let ext = s.ext in
    if test_bit s.regs.ppsg_escr 0
    then (
      record s {
        ext = record ext {
          align_timer = (s.regs.tics + 2 * tics_per_second) % 2 ^ 32;
          align_state = wait_csync;
        };
      },
      true,
    )
    else (s, false)

unfoldable pub do_wait_csync : Softpll → Softpll × Bool
do_wait_csync s =
    let ext = s.ext in
    if time_after_eq s.regs.tics s.ext.align_timer
    then (
      record s { ext = record ext { align_state = start_alignment; align_shift = pos 0 } },
      true,
    )
    else (s, false)

-- `s > 0` compares a pointer, and holds.
unfoldable pub do_start_alignment : Softpll → Softpll × Bool
do_start_alignment s =
    let (sample, r) = align_sample 1 s.regs in
    let t = record s { regs = r } in
    let ext = s.ext in
    elim sample [
      | none ↦ (t, false)
      | some v ↦
          let w = v % align_sample_period in
          let back = (w == 0) || leb (align_sample_period / 2) w in
          (
            record t {
              ext = record ext {
                align_target = if back then pos 0 else pos (align_sample_period - ext_period_ns);
                align_step = if back then negsuc 99 else pos 100;
                align_state = wait_sample;
              };
            },
            true,
          )
    ]

module _ (div64 : ℕ → ℕ → ℕ) where
  unfoldable pub do_wait_sample : ℕ → Softpll → Softpll × Bool
  do_wait_sample ljd s =
      let (sample, r) = align_sample 1 s.regs in
      let t = record s { regs = r } in
      let ext = s.ext in
      let next = i32 (s.ext.align_shift +ℤ s.ext.align_step) in
      let last = i32 (i32 (s.ext.align_shift +ℤ get_pps_latency ljd) +ℤ s.ext.pps_latency_ps) in
      if mpll_shifter_busy s.mpll then (s, false) else elim sample [
        | none ↦ (t, false)
        | some v ↦ (
          if not (eqb_ℤ (pos (v % align_sample_period)) s.ext.align_target)
              then record t {
                ext = record ext { align_shift = next };
                mpll = mpll_set_phase_shift div64 s.mpll next;
              }
              else record t {
                ext = record ext {
                  align_shift = last;
                  old_ext_pps_latency_ps = s.ext.pps_latency_ps;
                  align_state = compensate_delay;
                };
                mpll = mpll_set_phase_shift div64 s.mpll last;
              },
          true,
        )
      ]

  unfoldable pub do_compensate_delay : Softpll → Softpll × Bool
  do_compensate_delay s =
      if not (mpll_shifter_busy s.mpll) then (go align_locked s, true) else (s, false)

  unfoldable pub do_align_locked : Softpll → Softpll × Bool
  do_align_locked s =
      let lost = not (external_locked s) in
      let t = if lost then go wait_clkin s else s in
      let ext = s.ext in
      let shift =
        i32 (i32 (s.ext.align_shift -ℤ s.ext.old_ext_pps_latency_ps) +ℤ s.ext.pps_latency_ps) in
      if not (eqb_ℤ s.ext.old_ext_pps_latency_ps s.ext.pps_latency_ps)
      then (
        record t {
          ext = record ext {
            align_shift = shift;
            old_ext_pps_latency_ps = s.ext.pps_latency_ps;
            align_state = compensate_delay;
          };
          mpll = mpll_set_phase_shift div64 s.mpll shift;
        },
        true,
      )
      else (t, lost)

  unfoldable pub align_dispatch : AlignState → ℕ → Softpll → Softpll × Bool
  unfolding do_wait_clkin do_wait_plock do_start do_start_main_pll do_init_csync do_wait_csync
      do_start_alignment do_wait_sample do_compensate_delay do_align_locked
  align_dispatch ext_off ljd s = (s, false)
  align_dispatch wait_clkin ljd s = do_wait_clkin ljd s
  align_dispatch wait_plock ljd s = do_wait_plock s
  align_dispatch start ljd s = do_start s
  align_dispatch start_main_pll ljd s = do_start_main_pll s
  align_dispatch init_csync ljd s = do_init_csync s
  align_dispatch wait_csync ljd s = do_wait_csync s
  align_dispatch start_alignment ljd s = do_start_alignment s
  align_dispatch wait_sample ljd s = do_wait_sample ljd s
  align_dispatch compensate_delay ljd s = do_compensate_delay s
  align_dispatch align_locked ljd s = do_align_locked s

  unfoldable pub external_align_fsm : ℕ → Softpll → Softpll × Bool
  unfolding align_dispatch
  external_align_fsm ljd s =
      let (t, done_sth) = align_dispatch s.ext.align_state ljd s in
      let ext = t.ext in
      (if done_sth then record t { ext = record ext { timeout = t.regs.tics } } else t, done_sth)
