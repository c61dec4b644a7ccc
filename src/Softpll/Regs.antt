-- ===== src/Softpll/Regs.antt =====
-- The SoftPLL's memory-mapped registers as far as the software reads or writes them, and
-- `spll_enable_tagger` and `spll_debug` of softpll/spll_common.c. A register that the hardware
-- changes is a field all the same: between two calls the environment may give it another value.
use wrpc_sw.Prelude.{
  ℕ, ◌-◌, ◌*◌, ◌/◌, ◌%◌, ◌^◌, Bool, List, ◌∷◌, bit_and, bit_or, leb, not, ◌==◌, if◌then◌else◌,
}
use wrpc_sw.Prelude.Int.{ℤ, low_bits}

pub record Regs : Type 0 where
  pub csr : ℕ
  pub eccr : ℕ
  pub occr : ℕ
  pub ocer : ℕ
  pub rcer : ℕ
  pub dac_hpll : ℕ
  pub dac_main : ℕ
  pub al_cr : ℕ
  pub al_cin : ℕ
  pub deglitch_thr : ℕ
  pub irq_unmasked : Bool  -- EIC_IER and EIC_IDR
  pub cpu_irq : Bool  -- enable_irq and disable_irq
  pub dfr_spll : List ℕ  -- the words written to the debug FIFO, the latest first
  pub ppsg_cr : ℕ
  pub ppsg_escr : ℕ
  pub ppsg_adj_nsec : ℕ
  pub tics : ℕ  -- what timer_get_tics returns
  pub n_chan_ref : ℕ  -- spll_n_chan_ref
  pub n_chan_out : ℕ  -- spll_n_chan_out

-- `r |= 1 << k` and `r &= ~(1 << k)` on a 32-bit register.
unfoldable pub set_bit : ℕ → ℕ → ℕ
set_bit r k = bit_or r (2 ^ k % 2 ^ 32)

unfoldable pub clear_bit : ℕ → ℕ → ℕ
clear_bit r k = bit_and r (2 ^ 32 - 1 - 2 ^ k % 2 ^ 32)

-- `r & (1 << k)`
unfoldable pub test_bit : ℕ → ℕ → Bool
test_bit r k = not (bit_and r (2 ^ k % 2 ^ 32) == 0)

unfoldable pub spll_enable_tagger : ℕ → Bool → Regs → Regs
spll_enable_tagger channel enable r =
    if leb r.n_chan_ref channel
    then record r { ocer = bit r.ocer (channel - r.n_chan_ref) }
    else record r { rcer = bit r.rcer channel }
  where
    bit : ℕ → ℕ → ℕ
    bit w k = if enable then set_bit w k else clear_bit w k

unfoldable pub spll_debug : ℕ → ℕ → ℤ → Bool → Regs → Regs
spll_debug src what value last r = record r {
  dfr_spll =
      bit_or
        (bit_or (bit_or (if last then 0x80000000 else 0) (low_bits 24 value))
          (src * 2 ^ 28 % 2 ^ 32))
        (what * 2 ^ 24 % 2 ^ 32)
      ∷ r.dfr_spll;
}

-- The bits of OCCR: SPLL_OCCR_OUT_EN_R and SPLL_OCCR_OUT_LOCK_W.
unfoldable pub aux_locking_enabled : ℕ → Regs → Bool
aux_locking_enabled channel r = not (bit_and (r.occr / 2 ^ 8 % 2 ^ 8) (2 ^ channel % 2 ^ 32) == 0)

unfoldable pub set_channel_status : ℕ → Bool → Regs → Regs
set_channel_status channel locked r = record r {
  occr =
      let mask = 2 ^ channel % 2 ^ 8 * 2 ^ 16 in
      if locked then bit_or r.occr mask else bit_and r.occr (2 ^ 32 - 1 - mask);
}
