-- ===== src/Pps/Regs.antt =====
-- The registers of the PPS generator that dev/pps_gen.c writes. REF_CLOCK_PERIOD_PS and PPS_WIDTH are
-- parameters of the board. A register that the hardware changes is a field all the same.
use native.Mathlib.Nat.{mul-div-le, lt-mul-div-succ}
use wrpc_sw.Prelude.{
  ℕ, suc, ◌+◌, ◌-◌, ◌*◌, ◌/◌, ◌%◌, ◌^◌, ◌≤◌, ◌<◌, ◌≡◌, refl, sym, ◌∙◌, Bool, not, bit_and, bit_or,
  ◌==◌, if◌then◌else◌, arith,
}
use wrpc_sw.Prelude.Int.{ℤ, pos, negsuc, ◌*ℤ◌, i64, sar, tdiv, low_bits}

pub record PpsgWb : Type 0 where
  pub cr : ℕ
  pub adj_utclo : ℕ
  pub adj_utchi : ℕ
  pub adj_nsec : ℕ
  pub escr : ℕ

pub data Counter : Type 0 where
  adjust_sec : Counter
  adjust_nsec : Counter

pub data SetCounter : Type 0 where
  set_sec : SetCounter
  set_nsec : SetCounter
  set_all : SetCounter

-- The bits of CR and ESCR.
abbrev pub cr_cnt_en : ℕ
cr_cnt_en = 0x2

abbrev pub cr_cnt_adj : ℕ
cr_cnt_adj = 0x4

abbrev pub cr_cnt_set : ℕ
cr_cnt_set = 0x8

abbrev pub escr_pps_unmask : ℕ
escr_pps_unmask = 0x2

abbrev pub escr_pps_valid : ℕ
escr_pps_valid = 0x4

abbrev pub escr_tm_valid : ℕ
escr_tm_valid = 0x8

abbrev pub escr_sec_set : ℕ
escr_sec_set = 0x10

abbrev pub escr_nsec_set : ℕ
escr_nsec_set = 0x20

abbrev pub inverted : ℕ → ℕ
inverted mask = 2 ^ 32 - 1 - mask

-- The last of the writes to each register. The one before, with CNT_SET, starts the counter anew.
abbrev pub shw_pps_gen_init : ℕ → PpsgWb
shw_pps_gen_init pps_width = record {
  cr = bit_or cr_cnt_en (pps_width % 2 ^ 28 * 2 ^ 4);
  adj_utclo = 0;
  adj_utchi = 0;
  adj_nsec = 0;
  escr = 0;
}

negative_too : (z : ℤ) → low_bits 32 z + low_bits 32 (sar z 32) % 2 ^ 8 * 2 ^ 32 ≡ low_bits 40 z
unfolding low_bits sar
negative_too (pos n) = omega arith
negative_too (negsuc n) = omega arith

module _ (ref_clock_period_ps : ℕ) where
  unfoldable pub shw_pps_gen_adjust : Counter → ℤ → PpsgWb → PpsgWb
  shw_pps_gen_adjust adjust_nsec how_much r = record r {
    adj_utclo = 0;
    adj_utchi = 0;
    adj_nsec = low_bits 32 (tdiv (i64 (how_much *ℤ pos 1000)) (pos ref_clock_period_ps));
    cr = bit_or r.cr cr_cnt_adj;
  }
  shw_pps_gen_adjust adjust_sec how_much r = record r {
    adj_utclo = low_bits 32 how_much;
    adj_utchi = low_bits 32 (sar how_much 32) % 2 ^ 8;
    adj_nsec = 0;
    cr = bit_or r.cr cr_cnt_adj;
  }

  abbrev pub set_bits : SetCounter → PpsgWb → PpsgWb
  set_bits set_all r = record r { cr = bit_or (bit_and r.cr 0xfffffffb) cr_cnt_set }
  set_bits set_sec r = record r { escr = bit_or (bit_and r.escr 0xffffffe7) escr_sec_set }
  set_bits set_nsec r = record r { escr = bit_or (bit_and r.escr 0xffffffe7) escr_nsec_set }

  unfoldable pub shw_pps_gen_set_time : ℕ → ℕ → SetCounter → PpsgWb → PpsgWb
  shw_pps_gen_set_time seconds nanoseconds counter r = set_bits counter (record r {
    adj_utclo = seconds % 2 ^ 32;
    adj_utchi = seconds / 2 ^ 32 % 2 ^ 8;
    adj_nsec = nanoseconds * 1000 / ref_clock_period_ps % 2 ^ 32;
  })

  -- The seconds that the adjustment registers name.
  abbrev pub adj_utc : PpsgWb → ℕ
  adj_utc r = r.adj_utclo + r.adj_utchi * 2 ^ 32

  adj-set_bits :
      (counter : SetCounter) (r : PpsgWb)
      → (adj_utc (set_bits counter r) ≡ adj_utc r) × ((set_bits counter r).adj_nsec ≡ r.adj_nsec)
  adj-set_bits set_sec r = (refl, refl)
  adj-set_bits set_nsec r = (refl, refl)
  adj-set_bits set_all r = (refl, refl)

  -- The registers hold the low 40 bits of the seconds, also of negative ones to be added, and for times
  -- in nanoseconds the number of whole clock cycles.
  pub adjustment_lem :
      (how_much : ℤ) (seconds nanoseconds : ℕ) (counter : SetCounter) (r : PpsgWb)
      → 0 < ref_clock_period_ps
      → nanoseconds * 1000 / ref_clock_period_ps < 2 ^ 32
      → let set = shw_pps_gen_set_time seconds nanoseconds counter r in
        (adj_utc (shw_pps_gen_adjust adjust_sec how_much r) ≡ low_bits 40 how_much)
        × (adj_utc set ≡ seconds % 2 ^ 40)
        × (ref_clock_period_ps * set.adj_nsec ≤ nanoseconds * 1000)
        × (nanoseconds * 1000 < ref_clock_period_ps * suc set.adj_nsec)
  unfolding shw_pps_gen_adjust shw_pps_gen_set_time low_bits sar
  adjustment_lem how_much seconds nanoseconds counter r p h =
      let n = nanoseconds * 1000 in
      let registers : PpsgWb = record r {
        adj_utclo = seconds % 2 ^ 32;
        adj_utchi = seconds / 2 ^ 32 % 2 ^ 8;
        adj_nsec = n / ref_clock_period_ps % 2 ^ 32;
      } in
      let (utc, nsec) = adj-set_bits counter registers in
      let cycles : (set_bits counter registers).adj_nsec ≡ n / ref_clock_period_ps =
        omega (arith, nsec, h) in
      let next : n / ref_clock_period_ps + 1 ≡ suc (n / ref_clock_period_ps) = omega arith in
      (
        negative_too how_much,
        utc ∙ (omega arith),
        rw cycles (mul-div-le n ref_clock_period_ps),
        rw (cycles, sym next) (lt-mul-div-succ n p),
      )

-- Returns 1 when the adjustment operation is not yet finished, the source says of it.
abbrev pub shw_pps_gen_busy : PpsgWb → ℕ
shw_pps_gen_busy r = if not (bit_and r.cr cr_cnt_adj == 0) then 0 else 1

abbrev pub valid_bits : ℕ
valid_bits = 0xc

abbrev pub shw_pps_gen_enable_output : Bool → PpsgWb → PpsgWb
shw_pps_gen_enable_output enable r = record r {
  escr = if enable then bit_or r.escr valid_bits else bit_and r.escr (inverted valid_bits);
}

abbrev pub shw_pps_gen_unmask_output : Bool → PpsgWb → PpsgWb
shw_pps_gen_unmask_output unmask r = record r {
  escr =
      if unmask then bit_or r.escr escr_pps_unmask else bit_and r.escr (inverted escr_pps_unmask);
}
