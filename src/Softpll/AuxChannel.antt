-- ===== src/Softpll/AuxChannel.antt =====
-- The aux channels of softpll/softpll_ng.c: spll_start_channel, spll_stop_channel,
-- spll_update_aux_clock, spll_update, spll_get_aux_status and the phase shift calls. Channel ch is
-- element ch - 1 of `aux`; an access past the array, which C leaves undefined, changes nothing.
pub mod Diagram
use wrpc_sw.Prelude.{
  ℕ, zero, suc, ◌+◌, ◌-◌, ◌*◌, ◌/◌, ◌%◌, ◌^◌, ◌≤◌, ◌<◌, min, bit_and, bit_or, ◌≡◌, refl, sym, ap,
  ◌∙◌, ◌≢◌, ◌↔◌, ◌⊎◌, inl, inr, Bool, true, false, not, ◌&&◌, ◌||◌, Option, none, some, List, [],
  ◌∷◌, ◌++◌, map, arith, length, get_or, set, get_elem?, ltb, leb, ◌==◌, if◌then◌else◌, Bool-cases,
  Option-cases, dec_lt, dec_le,
}
use mathlib.Core.Option
use wrpc_sw.Prelude.Int.{
  ℤ, pos, negsuc, pos_part, neg_part, ◌+ℤ◌, ◌-ℤ◌, ◌*ℤ◌, ◌≤ℤ◌, ◌<ℤ◌, ltb_ℤ, leb_ℤ, eqb_ℤ, i32, i64,
  sar, tdiv, neg, low_bits, Fits32, i32_of_Fits32, +ℤ_parts, -ℤ_parts, eq_of_parts, parts_of_eq,
  word_laws,
}
use wrpc_sw.Softpll.Config.{divide_dmtd_clocks_by_2, max_chan_aux}
use wrpc_sw.Softpll.Regs.{Regs, aux_locking_enabled, set_channel_status}
use wrpc_sw.Softpll.Main.State.{Mpll, mpll_start, mpll_stop}
use wrpc_sw.Softpll.Main.Phase.{mpll_set_phase_shift, mpll_shifter_busy, to_picos}
use wrpc_sw.Softpll.Ptracker.{Ptracker, ptracker_init, ptracker_start}
use wrpc_sw.Softpll.External.{external_align_fsm}
use wrpc_sw.Softpll.Irq.{is_ready}
use wrpc_sw.Softpll.State.{
  Softpll, Aux, AuxSeq, AuxMode, aux_slave, phase_monitor, aux_disabled, lock_pll, align_phase,
  slave_ready, wait_monitor_lock, monitor_ready, is_grand_master,
}

unfoldable pub modify_aux : List Aux → ℕ → (Aux → Aux) → List Aux
modify_aux [] i f = []
modify_aux (a ∷ as') zero f = f a ∷ as'
modify_aux (a ∷ as') (suc i) f = a ∷ modify_aux as' i f

-- The result is 0 (true) or -1 (false).
unfoldable pub spll_start_channel : Softpll → ℕ → Softpll × Bool
spll_start_channel s channel =
    if not (is_ready s.seq_state) || (channel == 0) then (s, false) else (
      elim (get_elem? s.aux (channel - 1)) [
        | none ↦ s
        | some a ↦
            let (m, r) = mpll_start a.dmtd s.regs in
            record s { aux = set s.aux (channel - 1) (record a { dmtd = m }); regs = r }
      ],
      true,
    )

unfoldable pub spll_stop_channel : Softpll → ℕ → Softpll
spll_stop_channel s channel = if channel == 0 then s else elim (get_elem? s.aux (channel - 1)) [
  | none ↦ s
  | some a ↦
      let (m, r) = mpll_stop a.dmtd s.regs in
      record s { aux = set s.aux (channel - 1) (record a { dmtd = m }); regs = r }
]

unfoldable pub spll_check_lock : Softpll → ℕ → Bool
spll_check_lock s channel =
    if channel == 0
    then is_ready s.seq_state
    else is_ready s.seq_state
      && elim (get_elem? s.aux (channel - 1)) [ none ↦ false | some a ↦ a.dmtd.phase_ld.locked ]

unfoldable pub set_seq : Softpll → ℕ → AuxSeq → Softpll
set_seq s ch q = record s {
  aux = modify_aux s.aux (ch - 1) (λ (a : Aux). record a { seq_state = q });
}

unfoldable pub set_value : Softpll → ℕ → ℤ → Softpll
set_value s ch v = record s {
  aux = modify_aux s.aux (ch - 1) (λ (a : Aux). record a { phase_value = v });
}

unfoldable pub set_status : Softpll → ℕ → Bool → Softpll
set_status s ch locked = record s { regs = set_channel_status ch locked s.regs }

unfoldable pub spll_shifter_busy : Softpll → ℕ → Bool
spll_shifter_busy s channel =
    if channel == 0
    then mpll_shifter_busy s.mpll
    else elim (get_elem? s.aux (channel - 1)) [ none ↦ false | some a ↦ mpll_shifter_busy a.dmtd ]

abbrev pub is_slave_ready : AuxSeq → Bool
is_slave_ready slave_ready = true
is_slave_ready _ = false

abbrev pub is_off : AuxSeq → Bool
is_off aux_disabled = true
is_off _ = false

-- The case AUX_DISABLED.
unfoldable pub enable_channel : Softpll → ℕ → AuxMode → Aux → Softpll × Bool
enable_channel s ch aux_slave a =
    let (t, ok) = spll_start_channel s ch in (if ok then set_seq t ch lock_pll else t, true)
enable_channel s ch phase_monitor a =
    let (tracker, r) =
      ptracker_start (ptracker_init a.tracker (ch + s.regs.n_chan_ref) (pos 512)) s.regs in
    let t = record s {
      aux =
          modify_aux s.aux (ch - 1)
            (λ (b : Aux). record b { seq_state = wait_monitor_lock; tracker = tracker });
      regs = r;
    } in
    (t, true)

-- The case AUX_MONITOR_READY.
unfoldable pub watch_monitor : Softpll → ℕ → Aux → Softpll × Bool
watch_monitor s ch a =
    if not s.mpll.locked
    then (set_seq (set_status s ch false) ch aux_disabled, true)
    else (set_value s ch a.tracker.phase_val, false)

module _ (div64 : ℕ → ℕ → ℕ) where
  unfoldable pub set_phase_shift : Softpll → ℕ → ℤ → Softpll
  set_phase_shift s channel v =
      let t =
        if channel == 0 then record s { mpll = mpll_set_phase_shift div64 s.mpll v } else record s {
          aux =
              modify_aux s.aux (channel - 1)
                (λ (a : Aux). record a { dmtd = mpll_set_phase_shift div64 a.dmtd v });
        } in
      record t { mpll_shift_ps = v }

  -- The loop over the aux channels for SPLL_ALL_CHANNELS.
  unfoldable pub shift_auxes : List Aux → ℕ → ℕ → ℤ → List Aux
  shift_auxes [] i n_chan_out v = []
  shift_auxes (a ∷ as') i n_chan_out v =
      (if ltb (i + 1) n_chan_out && is_slave_ready a.seq_state
        then record a { dmtd = mpll_set_phase_shift div64 a.dmtd v }
        else a)
      ∷ shift_auxes as' (i + 1) n_chan_out v

  unfoldable pub spll_set_phase_shift : Softpll → ℕ → ℤ → Softpll
  spll_set_phase_shift s channel v =
      let t = set_phase_shift s 0 v in
      if channel == 0xffffffff
      then record t { aux = shift_auxes t.aux 0 t.regs.n_chan_out v }
      else set_phase_shift s channel v

  unfoldable pub aux_dispatch : AuxSeq → Softpll → ℕ → Aux → Softpll × Bool
  unfolding enable_channel watch_monitor
  aux_dispatch aux_disabled s ch a =
      if s.mpll.locked && aux_locking_enabled ch s.regs
      then enable_channel s ch a.mode a
      else (s, false)
  aux_dispatch wait_monitor_lock s ch a =
      if a.tracker.ready
      then (
        set_status (set_value (set_seq s ch monitor_ready) ch a.tracker.phase_val) ch true,
        true,
      )
      else watch_monitor s ch a
  aux_dispatch monitor_ready s ch a = watch_monitor s ch a
  aux_dispatch lock_pll s ch a =
      if a.dmtd.phase_ld.locked
      then (set_seq (set_phase_shift s ch s.mpll_shift_ps) ch align_phase, true)
      else (s, false)
  aux_dispatch align_phase s ch a =
      if not (mpll_shifter_busy a.dmtd)
      then (set_seq (set_status s ch true) ch slave_ready, true)
      else (s, false)
  aux_dispatch slave_ready s ch a =
      if not s.mpll.locked || not a.dmtd.phase_ld.locked
      then (set_seq (set_status s ch false) ch aux_disabled, true)
      else (s, false)

  unfoldable pub spll_update_aux_clock : Softpll → ℕ → Softpll × Bool
  unfolding aux_dispatch
  spll_update_aux_clock s ch = elim (get_elem? s.aux (ch - 1)) [
    | none ↦ (s, false)
    | some a ↦
        if not (is_off a.seq_state) && not (aux_locking_enabled ch s.regs)
        then (set_seq (set_status (spll_stop_channel s ch) ch false) ch aux_disabled, true)
        else aux_dispatch a.seq_state s ch a
  ]

  -- The loop over the channels from `ch` on, `n` of them.
  unfoldable pub update_channels : ℕ → Softpll → ℕ → Softpll × Bool
  update_channels zero s ch = (s, false)
  update_channels (suc n) s ch =
      let (t, d) = spll_update_aux_clock s ch in
      let (u, ds) = update_channels n t (ch + 1) in (u, d || ds)

  unfoldable pub spll_update : ℕ → Softpll → Softpll × Bool
  spll_update ljd s =
      let (t, d) = if is_grand_master s.mode then external_align_fsm div64 ljd s else (s, false) in
      let (u, ds) = update_channels (t.regs.n_chan_out - 1) t 1 in (u, d || ds)

-- The current shift and its target, in picoseconds.
unfoldable pub spll_get_phase_shift : Softpll → ℕ → Option (ℤ × ℤ)
spll_get_phase_shift s channel =
    if channel == 0
    then some (read s.mpll)
    else Option.map (λ (a : Aux). read a.dmtd) (get_elem? s.aux (channel - 1))
  where
    div : ℤ
    div = if divide_dmtd_clocks_by_2 then pos 2 else pos 1

    read : Mpll → ℤ × ℤ
    read m = (
      to_picos (i32 (m.phase_shift_current *ℤ div)),
      to_picos (i32 (m.phase_shift_target *ℤ div)),
    )

-- spll_get_aux_status: the flags, 1 for a slave that is enabled, 2 for one that is locked, 4 for a
-- monitor that is enabled, 8 for one that is ready.
unfoldable pub aux_flags : AuxSeq → ℕ
aux_flags aux_disabled = 0
aux_flags lock_pll = 1
aux_flags wait_monitor_lock = 4
aux_flags monitor_ready = 12
aux_flags slave_ready = 6
aux_flags align_phase = 0

pub record AuxStatus : Type 0 where
  pub flags : ℕ
  pub mode : AuxMode
  pub phase : ℤ

unfoldable pub spll_get_aux_status : Softpll → ℕ → AuxStatus
unfolding aux_flags
spll_get_aux_status s channel =
    elim (if leb max_chan_aux channel then none else get_elem? s.aux channel) [
      | none ↦ record { flags = 0; mode = aux_slave; phase = pos 0 }
      | some a ↦ record { flags = aux_flags a.seq_state; mode = a.mode; phase = a.phase_value }
    ]
