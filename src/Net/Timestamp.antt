-- ===== src/Net/Timestamp.antt =====
-- Linearization of receive timestamps, lib/net.c. `clock_period` is in picoseconds.
pub mod Phase
use wrpc_sw.Prelude.{
  ℕ, zero, suc, ◌+◌, ◌-◌, ◌*◌, ◌/◌, ◌%◌, ◌^◌, ◌≤◌, ◌<◌, min, bit_and, bit_or, ◌≡◌, refl, sym, ap,
  ◌∙◌, ◌≢◌, ◌↔◌, ◌⊎◌, inl, inr, Bool, true, false, not, ◌&&◌, ◌||◌, Option, none, some, List, [],
  ◌∷◌, ◌++◌, map, arith, length, get_or, set, get_elem?, ltb, leb, ◌==◌, if◌then◌else◌, Bool-cases,
  Option-cases, dec_lt, dec_le,
}
use wrpc_sw.Prelude.Int.{
  ℤ, pos, negsuc, pos_part, neg_part, ◌+ℤ◌, ◌-ℤ◌, ◌*ℤ◌, ◌≤ℤ◌, ◌<ℤ◌, ltb_ℤ, leb_ℤ, eqb_ℤ, i32, i64,
  sar, tdiv, neg, low_bits, Fits32, i32_of_Fits32, +ℤ_parts, -ℤ_parts, eq_of_parts, parts_of_eq,
  word_laws,
}

pub record WrTimestamp : Type 0 where
  pub sec : ℤ
  pub nsec : ℤ
  pub phase : ℤ
  pub raw_phase : ℤ
  pub raw_nsec : ℤ
  pub raw_ahead : ℤ
  pub correct : Bool

abbrev pub giga : ℤ
giga = pos 1000000000

-- `phase_r`: the phase, which jumps where the counter changes.
unfoldable pub rising_phase : ℤ → ℤ → ℤ → ℤ
rising_phase raw transition_point clock_period =
    let p = i32 (raw -ℤ transition_point) in if ltb_ℤ p (pos 0) then i32 (p +ℤ clock_period) else p

-- `phase_f`: the same, half a period later.
unfoldable pub falling_phase : ℤ → ℤ → ℤ → ℤ
falling_phase raw transition_point clock_period =
    let p0 = i32 (i32 (raw -ℤ transition_point) +ℤ tdiv clock_period (pos 2)) in
    let p1 = if ltb_ℤ p0 (pos 0) then i32 (p0 +ℤ clock_period) else p0 in
    if leb_ℤ clock_period p1 then i32 (p1 -ℤ clock_period) else p1

-- The test whether phase_r is within a quarter of a period of the transition.
unfoldable pub near_transition : ℤ → ℤ → Bool
near_transition phase_r clock_period =
    ltb_ℤ (tdiv (i32 (pos 3 *ℤ clock_period)) (pos 4)) phase_r
    || ltb_ℤ phase_r (tdiv clock_period (pos 4))

-- The falling edge's nanoseconds and phase, in the terms of the rising edge.
unfoldable pub pick_falling : ℤ → ℤ → ℤ → ℤ × ℤ
pick_falling nsec_f phase_f clock_period =
    let p = i32 (phase_f +ℤ tdiv clock_period (pos 2)) in
    if leb_ℤ clock_period p
    then (i32 (nsec_f +ℤ tdiv clock_period (pos 1000)), i32 (p -ℤ clock_period))
    else (nsec_f, p)

-- The final step: the overflow of the nanoseconds.
unfoldable pub carry_second : WrTimestamp → WrTimestamp
carry_second ts =
    if leb_ℤ giga ts.nsec
    then record ts { nsec = i32 (ts.nsec -ℤ giga); sec = i64 (ts.sec +ℤ pos 1) }
    else ts

unfoldable pub ptpd_netif_linearize_rx_timestamp :
    WrTimestamp
    → (dmtd_phase : ℤ) → (cntr_ahead : Bool) → (transition_point clock_period : ℤ) → WrTimestamp
ptpd_netif_linearize_rx_timestamp ts dmtd_phase cntr_ahead transition_point clock_period =
    let nsec_r = ts.nsec in
    let nsec_f = if cntr_ahead then i32 (ts.nsec -ℤ tdiv clock_period (pos 1000)) else ts.nsec in
    let phase_r = rising_phase dmtd_phase transition_point clock_period in
    let phase_f = falling_phase dmtd_phase transition_point clock_period in
    let (nsec, phase) =
      if near_transition phase_r clock_period
      then pick_falling nsec_f phase_f clock_period
      else (nsec_r, phase_r) in
    carry_second (record ts { raw_phase = dmtd_phase; nsec = nsec; phase = phase })
