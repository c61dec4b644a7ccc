-- ===== src/Softpll/Helper/Tracking.antt =====
-- The helper PLL's error against unwrapped tags, and the range of what it writes to its DAC.
use wrpc_sw.Prelude.{
  ℕ, ◌+◌, ◌%◌, ◌^◌, ◌≤◌, ◌<◌, ◌≡◌, refl, ap, ◌⊎◌, inl, inr, Bool, true, false, ◌&&◌, arith,
  Bool-cases,
}
use wrpc_sw.Prelude.Int.{
  ℤ, pos, negsuc, ◌+ℤ◌, ◌-ℤ◌, ◌≤ℤ◌, ◌<ℤ◌, ltb_ℤ, i32, neg, low_bits, parts_of_eq, word_laws,
}
use wrpc_sw.Softpll.Config.{tag_bits, hpll_n}
use wrpc_sw.Softpll.Regs.{Regs}
use wrpc_sw.Softpll.Pi.Bounds.{pi_update_bounds, x-pi_update}
use wrpc_sw.Softpll.Helper.{
  Helper, helper_update, helper_track, helper_drive, clamp_error, helper_tag_wraparound,
  helper_unwrap, helper_wrap,
}

-- The helper's bookkeeping stands for an ideal counter: `t` is the latest tag with all its wraps
-- counted in, and `p` the position at which the next tag is expected.
pub record Tracks (s : Helper) (t p : ℕ) : Type 0 where
  pub tag : s.tag_d0 ≡ pos (t % 2 ^ tag_bits)
  pub offset : s.tag_d0 +ℤ s.p_adder -ℤ s.p_setpoint ≡ pos t -ℤ pos p
  pub adder_low : negsuc 4999999 ≤ℤ s.p_adder
  pub adder_high : s.p_adder ≤ℤ pos 500000000
  pub near_low : p ≤ t + 300000000
  pub near_high : t ≤ p + 300000000

helper_unwrap_lem :
    (s : Helper) (t p t' : ℕ)
    → Tracks s t p
    → t ≤ t'
    → t' < t + 2 ^ tag_bits
    → let adder = helper_unwrap s (pos (t' % 2 ^ tag_bits)) in
      (pos (t' % 2 ^ tag_bits) +ℤ adder -ℤ s.p_setpoint ≡ pos t' -ℤ pos p)
      × (negsuc 4999999 ≤ℤ adder)
      × (adder ≤ℤ pos 504200000)
unfolding helper_unwrap
helper_unwrap_lem s t p t' k h1 h2 = elim (Bool-cases (ltb_ℤ (pos (t' % 2 ^ tag_bits)) s.tag_d0)) [
  | inl e ↦ rw e (omega (word_laws, parts_of_eq k.offset, parts_of_eq k.tag, wrapped e))
  | inr e ↦ rw e (omega (word_laws, parts_of_eq k.offset, parts_of_eq k.tag, unwrapped e))
]
  where
    wrapped : ltb_ℤ (pos (t' % 2 ^ tag_bits)) s.tag_d0 ≡ true → t' % 2 ^ tag_bits < t % 2 ^ tag_bits
    wrapped e = ground (arith, k.tag)

    unwrapped :
        ltb_ℤ (pos (t' % 2 ^ tag_bits)) s.tag_d0 ≡ false → t % 2 ^ tag_bits ≤ t' % 2 ^ tag_bits
    unwrapped e = ground (arith, k.tag)

-- The two tests of the wrap-around block.
abbrev wraps : ℤ → ℤ → ℤ → Bool
wraps tag adder setpoint =
    ltb_ℤ (pos helper_tag_wraparound) (i32 (tag +ℤ adder))
    && ltb_ℤ (pos helper_tag_wraparound) setpoint

wraps_both :
    (tag adder setpoint : ℤ)
    → wraps tag adder setpoint ≡ true
    → (pos 100000000 <ℤ i32 (tag +ℤ adder)) × (pos 100000000 <ℤ setpoint)
wraps_both tag adder setpoint e = ground arith

wraps_one :
    (tag adder setpoint : ℤ)
    → wraps tag adder setpoint ≡ false
    → (i32 (tag +ℤ adder) ≤ℤ pos 100000000) ⊎ (setpoint ≤ℤ pos 100000000)
wraps_one tag adder setpoint e = ground arith

helper_wrap_lem :
    (tag : ℕ) (adder setpoint : ℤ)
    → tag < 2 ^ tag_bits
    → negsuc 4999999 ≤ℤ adder
    → adder ≤ℤ pos 504200000
    → pos tag +ℤ adder ≤ℤ setpoint +ℤ pos 300000000
    → setpoint ≤ℤ pos tag +ℤ adder +ℤ pos 300000000
    → let (a, p) = helper_wrap (pos tag) adder setpoint in
      (pos tag +ℤ a -ℤ p ≡ pos tag +ℤ adder -ℤ setpoint)
      × (negsuc 4999999 ≤ℤ a)
      × (a ≤ℤ pos 500000000)
unfolding helper_wrap
helper_wrap_lem tag adder setpoint h1 h2 h3 h4 h5 =
    elim (Bool-cases (wraps (pos tag) adder setpoint)) [
      | inl e ↦ rw e (omega (word_laws, wraps_both (pos tag) adder setpoint e))
      | inr e ↦ rw e (omega (word_laws, wraps_one (pos tag) adder setpoint e))
    ]

-- The setpoint with the next expected tag, and the error before it is clamped, without overflow.
helper_sums :
    (t p t' : ℕ) (a b adder setpoint : ℤ)
    → pos (t' % 2 ^ tag_bits) +ℤ a -ℤ b ≡ pos (t' % 2 ^ tag_bits) +ℤ adder -ℤ setpoint
    → pos (t' % 2 ^ tag_bits) +ℤ adder -ℤ setpoint ≡ pos t' -ℤ pos p
    → (negsuc 4999999 ≤ℤ adder) × (adder ≤ℤ pos 504200000)
    → (negsuc 4999999 ≤ℤ a) × (a ≤ℤ pos 500000000)
    → t' ≤ p + 300000000
    → p + 2 ^ hpll_n ≤ t' + 300000000
    → (pos (t' % 2 ^ tag_bits) +ℤ a -ℤ i32 (b +ℤ pos (2 ^ hpll_n)) ≡ pos t' -ℤ pos (p + 2 ^ hpll_n))
      × (i32 (i32 (pos (t' % 2 ^ tag_bits) +ℤ adder) -ℤ setpoint) ≡ pos t' -ℤ pos p)
helper_sums t p t' a b adder setpoint e1 e2 h1 h2 h3 h4 =
    (omega (word_laws, parts_of_eq e1, parts_of_eq e2), omega (word_laws, parts_of_eq e2))

-- One tag of the helper PLL, against ideal counters. Let the bookkeeping stand for the unwrapped
-- tag t and the expected position p, and let the next tag be the low 22 bits of some t' that is at
-- least t, less than a tag period after t and within 3 * 10^8 of p and of p + 2^14. Then the error
-- is the clamped difference of t' and p, and the bookkeeping stands for t' and p + 2^14.
pub helper_track_lem :
    (s : Helper) (t p t' : ℕ)
    → Tracks s t p
    → t ≤ t'
    → t' < t + 2 ^ tag_bits
    → t' ≤ p + 300000000
    → p + 2 ^ hpll_n ≤ t' + 300000000
    → let (s', err) = helper_track s (pos (t' % 2 ^ tag_bits)) in
      Tracks s' t' (p + 2 ^ hpll_n) × (err ≡ clamp_error (pos t' -ℤ pos p))
unfolding helper_track
helper_track_lem s t p t' k h1 h2 h3 h4 = (
  record {
    tag = refl;
    offset = sums.0;
    adder_low = kept.1;
    adder_high = kept.2;
    near_low = omega arith;
    near_high = omega arith;
  },
  ap clamp_error sums.1,
)
  where
    tag : ℕ
    tag = t' % 2 ^ tag_bits

    adder : ℤ
    adder = helper_unwrap s (pos tag)

    moved :
        (pos tag +ℤ adder -ℤ s.p_setpoint ≡ pos t' -ℤ pos p)
        × (negsuc 4999999 ≤ℤ adder)
        × (adder ≤ℤ pos 504200000)
    moved = helper_unwrap_lem s t p t' k h1 h2

    kept :
        let (a, b) = helper_wrap (pos tag) adder s.p_setpoint in
        (pos tag +ℤ a -ℤ b ≡ pos tag +ℤ adder -ℤ s.p_setpoint)
        × (negsuc 4999999 ≤ℤ a)
        × (a ≤ℤ pos 500000000)
    kept =
        helper_wrap_lem tag adder s.p_setpoint (omega arith) moved.1 moved.2
          (omega (word_laws, parts_of_eq moved.0)) (omega (word_laws, parts_of_eq moved.0))

    sums :
        let (a, b) = helper_wrap (pos tag) adder s.p_setpoint in
        (pos tag +ℤ a -ℤ i32 (b +ℤ pos (2 ^ hpll_n)) ≡ pos t' -ℤ pos (p + 2 ^ hpll_n))
        × (i32 (i32 (pos tag +ℤ adder) -ℤ s.p_setpoint) ≡ pos t' -ℤ pos p)
    sums =
        let (a, b) = helper_wrap (pos tag) adder s.p_setpoint in
        helper_sums t p t' a b adder s.p_setpoint kept.0 moved.0 (moved.1, moved.2) (kept.1, kept.2)
          h3 h4

clamp_error_bounds : (e : ℤ) → (negsuc 149999 ≤ℤ clamp_error e) × (clamp_error e ≤ℤ pos 150000)
unfolding clamp_error neg
clamp_error_bounds e = ground arith

drive_bounds :
    (s : Helper) (err : ℤ) (r : Regs)
    → s.pi.y_min ≤ℤ s.pi.y_max
    → pos 0 ≤ℤ s.pi.y_min
    → s.pi.y_max <ℤ pos (2 ^ 32)
    → let (s', r') = helper_drive s err r in
      (s'.pi.y ≡ pos r'.dac_hpll)
      × (s.pi.y_min ≤ℤ pos r'.dac_hpll)
      × (pos r'.dac_hpll ≤ℤ s.pi.y_max)
      × (s'.pi.x ≡ err)
unfolding helper_drive low_bits
drive_bounds s err r h1 h2 h3 = ground (arith, pi_update_bounds s.pi err h1, x-pi_update s.pi err)

track_keeps :
    (s : Helper) (tag : ℤ)
    → ((helper_track s tag).0.pi ≡ s.pi)
      × ((helper_track s tag).1
          ≡ clamp_error (i32 (i32 (tag +ℤ helper_unwrap s tag) -ℤ s.p_setpoint)))
unfolding helper_track
track_keeps s tag = (refl, refl)

-- Whatever the tag is, a helper_update that gets past the first-tag check leaves the value of the
-- controller in the helper DAC, and that value lies between the controller's y_min and y_max
-- (where these are ordered and fit an unsigned word); the error was clamped to 150000 on both sides.
pub helper_update_bounds :
    (s : Helper) (tag : ℤ) (r : Regs)
    → s.pi.y_min ≤ℤ s.pi.y_max
    → pos 0 ≤ℤ s.pi.y_min
    → s.pi.y_max <ℤ pos (2 ^ 32)
    → pos 0 ≤ℤ s.tag_d0
    → let (s', r') = helper_update s tag s.ref_src r in
      (s'.pi.y ≡ pos r'.dac_hpll)
      × (s.pi.y_min ≤ℤ pos r'.dac_hpll)
      × (pos r'.dac_hpll ≤ℤ s.pi.y_max)
      × (negsuc 149999 ≤ℤ s'.pi.x)
      × (s'.pi.x ≤ℤ pos 150000)
unfolding helper_update
helper_update_bounds s tag r h1 h2 h3 h4 = ground (
  arith,
  drive_bounds (helper_track s tag).0 (helper_track s tag).1 r,
  track_keeps s tag,
  clamp_error_bounds (i32 (i32 (tag +ℤ helper_unwrap s tag) -ℤ s.p_setpoint)),
)
