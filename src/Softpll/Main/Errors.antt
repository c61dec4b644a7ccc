-- ===== src/Softpll/Main/Errors.antt =====
-- The errors that the main PLL works on: masking, tag distances, and picoseconds.
use wrpc_sw.Prelude.{ℕ, suc, ◌+◌, ◌-◌, ◌*◌, ◌/◌, ◌%◌, ◌^◌, ◌≤◌, ◌<◌, ◌≡◌, sym, ◌∙◌, ◌≢◌, arith}
use wrpc_sw.Prelude.{◌⊎◌}
use wrpc_sw.Prelude.Int.{
  ℤ, pos, negsuc, ◌+ℤ◌, ◌-ℤ◌, ◌*ℤ◌, ◌≤ℤ◌, ◌<ℤ◌, i32, i64, tdiv, neg, low_bits,
}
use wrpc_sw.Softpll.Config.{tag_bits, hpll_n}
use wrpc_sw.Softpll.Main.Update.{mask_error, update_dtag_dt}
use wrpc_sw.Softpll.Main.Phase.{from_picos, from_picos_64}

-- Once the frequency is locked, the phase error that is used lies in [-2^13, 2^13), agrees with the
-- raw error in its low 14 bits, and is the raw error itself where that already lies in this range.
pub mask_error_lem :
    (e : ℤ)
    → (negsuc 8191 ≤ℤ mask_error e)
      × (mask_error e <ℤ pos 8192)
      × (low_bits hpll_n (mask_error e) ≡ low_bits hpll_n e)
      × ((mask_error e ≡ e) ⊎ (e <ℤ negsuc 8191) ⊎ (pos 8192 ≤ℤ e))
unfolding mask_error low_bits
mask_error_lem (pos n) = (ground arith, ground arith, ground arith, ground arith)
mask_error_lem (negsuc n) = (ground arith, ground arith, ground arith, ground arith)

-- For two different 22-bit tags, update_dtag_dt gives the distance from the older to the newer
-- round the tag counter, and remembers the newer.
pub update_dtag_dt_lem :
    (dt : ℤ) (t d : ℕ)
    → t < 2 ^ tag_bits
    → d < 2 ^ tag_bits
    → t ≢ d
    → update_dtag_dt dt (pos t) (pos d) ≡ (pos ((t + 2 ^ tag_bits - d) % 2 ^ tag_bits), pos t)
unfolding update_dtag_dt i32 low_bits ◌-ℤ◌ ◌+ℤ◌
update_dtag_dt_lem dt t d h1 h2 h3 = ground arith

pos_times : (n k : ℕ) → pos n *ℤ pos k ≡ pos (n * k)
unfolding ◌*ℤ◌
pos_times n k = ground arith

negsuc_times : (n k : ℕ) → 0 < k → negsuc n *ℤ pos k ≡ negsuc (suc n * k - 1)
unfolding ◌*ℤ◌
negsuc_times n k h = ground arith

module _ (div64 : ℕ → ℕ → ℕ) (div64_lem : (n b : ℕ) → 0 < b → n < 2 ^ 64 → div64 n b ≡ n / b) where
  from_picos_pos : (n : ℕ) → n < 2 ^ 31 → from_picos div64 (pos n) ≡ from_picos_64 (pos n)
  unfolding from_picos from_picos_64 low_bits i64 tdiv
  from_picos_pos n h = ground (arith, pos_times n 16384, div64_lem (n * 16384 % 2 ^ 64) 8000)

  from_picos_neg : (n : ℕ) → n < 131071 → from_picos div64 (negsuc n) ≡ from_picos_64 (negsuc n)
  unfolding from_picos from_picos_64 low_bits i64 i32 tdiv neg
  from_picos_neg n h = ground (
    arith,
    pos_times (suc n) 16384,
    negsuc_times n 16384 (omega arith),
    div64_lem (suc n * 16384) 8000,
  )

  -- With a __div64_32 that divides, from_picos agrees with the variant that is compiled without
  -- ppsi for every number of picoseconds above -131072 that an int32_t holds.
  pub from_picos_lem :
      (ps : ℤ) → negsuc 131070 ≤ℤ ps → ps <ℤ pos (2 ^ 31) → from_picos div64 ps ≡ from_picos_64 ps
  from_picos_lem (pos n) h1 h2 = from_picos_pos n (omega arith)
  from_picos_lem (negsuc n) h1 h2 = from_picos_neg n (omega arith)

  neg_wrapped :
      (n : ℕ)
      → 131071 ≤ n
      → n < 262143
      → low_bits 64 (i32 (i32 (neg (negsuc n)) *ℤ pos (2 ^ hpll_n)))
        ≡ 2 ^ 64 - 2 ^ 32 + suc n * 16384
  unfolding low_bits i32 neg
  neg_wrapped n h1 h2 = ground (arith, pos_times (suc n) 16384)

  from_picos_wrapped :
      (n : ℕ)
      → 131071 ≤ n
      → n < 262143
      → from_picos div64 (negsuc n) ≡ i32 (neg (pos ((2 ^ 64 - 2 ^ 32 + suc n * 16384) / 8000)))
  unfolding from_picos
  from_picos_wrapped n h1 h2 =
      rw
        (
          neg_wrapped n h1 h2,
          div64_lem (2 ^ 64 - 2 ^ 32 + suc n * 16384) 8000 (omega arith) (omega arith),
        )
        (ground arith)

  from_picos_64-neg :
      (n : ℕ) → n < 262143 → from_picos_64 (negsuc n) ≡ neg (pos (suc n * 16384 / 8000))
  unfolding from_picos_64 low_bits i64 i32 tdiv neg
  from_picos_64-neg n h = ground (arith, negsuc_times n 16384 (omega arith))

  wrapped_differs :
      (n : ℕ)
      → 131071 ≤ n
      → n < 262143
      → i32 (neg (pos ((2 ^ 64 - 2 ^ 32 + suc n * 16384) / 8000)))
        ≢ neg (pos (suc n * 16384 / 8000))
  unfolding i32 low_bits neg
  wrapped_differs n h1 h2 e = ground arith

  -- From -131072 down to -262143 picoseconds, which are `negsuc n` for these n, the 32-bit product of the ppsi variant overflows, and
  -- the two variants give different results, also with a __div64_32 that divides.
  pub from_picos_overflow :
      (n : ℕ) → 131071 ≤ n → n < 262143 → from_picos div64 (negsuc n) ≢ from_picos_64 (negsuc n)
  from_picos_overflow n h1 h2 e =
      wrapped_differs n h1 h2 (sym (from_picos_wrapped n h1 h2) ∙ e ∙ from_picos_64-neg n h2)
