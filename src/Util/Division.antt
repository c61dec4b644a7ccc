-- ===== src/Util/Division.antt =====
-- The 64-bit divisions of lib/util.c, made of the unsigned one. A division by 0 is undefined in C.
use wrpc_sw.Prelude.{
  ℕ, suc, ◌+◌, ◌-◌, ◌*◌, ◌/◌, ◌%◌, ◌^◌, ◌≤◌, ◌<◌, ◌≡◌, ◌≢◌, Bool, true, false, arith, not,
  if◌then◌else◌,
}
use native.Mathlib.Nat.{div-le_self, div-mul-le_self, mod-eq-sub-div-mul}
use wrpc_sw.Prelude.Int.{ℤ, pos, negsuc, i64, neg, low_bits, tdiv, ◌≤ℤ◌, sub_ℕ}

abbrev pub negative : ℤ → Bool
negative (pos n) = false
negative (negsuc n) = true

-- The unsigned word of -A for a negative A, of A otherwise.
abbrev pub magnitude : ℤ → ℕ
magnitude a = if negative a then low_bits 64 (neg a) else low_bits 64 a

abbrev pub xor : Bool → Bool → Bool
xor a b = if a then not b else b

-- __divdi3
unfoldable pub divdi3 : ℤ → ℤ → ℤ
divdi3 a b =
    let sign = xor (negative a) (negative b) in
    let res = i64 (pos (magnitude a / magnitude b)) in if sign then i64 (neg res) else res

-- __umoddi3
unfoldable pub umoddi3 : ℕ → ℕ → ℕ
umoddi3 a b = let x = a / b in (a + 2 ^ 64 - x * b % 2 ^ 64) % 2 ^ 64

-- The values of `long long`.
abbrev pub Fits64 : ℤ → Type 0
Fits64 z = (negsuc (2 ^ 63 - 1) ≤ℤ z) × (z ≤ℤ pos (2 ^ 63 - 1))

positive_quotient : (q : ℕ) → Fits64 (pos q) → i64 (pos q) ≡ pos q
unfolding i64 low_bits
positive_quotient q h = ground arith

negative_quotient : (q : ℕ) → q ≤ 2 ^ 63 → i64 (neg (i64 (pos q))) ≡ sub_ℕ 0 q
unfolding i64 low_bits neg
negative_quotient q h = ground arith

magnitude-pos : (n : ℕ) → Fits64 (pos n) → magnitude (pos n) ≡ n
unfolding low_bits
magnitude-pos n h = ground arith

magnitude-negsuc : (n : ℕ) → Fits64 (negsuc n) → magnitude (negsuc n) ≡ suc n
unfolding low_bits neg
magnitude-negsuc n h = ground arith

-- For a divisor other than 0 and a quotient that a `long long` holds, __divdi3 gives C's quotient,
-- truncated towards 0.
pub divdi3_lem :
    (a b : ℤ) → Fits64 a → Fits64 b → b ≢ pos 0 → Fits64 (tdiv a b) → divdi3 a b ≡ tdiv a b
unfolding divdi3 tdiv
divdi3_lem (pos a) (pos b) h k z q =
    rw (magnitude-pos a h, magnitude-pos b k) (positive_quotient (a / b) q)
divdi3_lem (pos a) (negsuc b) h k z q =
    rw (magnitude-pos a h, magnitude-negsuc b k)
      (negative_quotient (a / suc b) (omega (arith, div-le_self a (suc b))))
divdi3_lem (negsuc a) (pos b) h k z q =
    rw (magnitude-negsuc a h, magnitude-pos b k)
      (negative_quotient (suc a / b) (omega (arith, div-le_self (suc a) b)))
divdi3_lem (negsuc a) (negsuc b) h k z q =
    rw (magnitude-negsuc a h, magnitude-negsuc b k) (positive_quotient (suc a / suc b) q)

-- For a divisor other than 0, __umoddi3 gives the remainder.
pub umoddi3_lem : (a b : ℕ) → a < 2 ^ 64 → b ≢ 0 → umoddi3 a b ≡ a % b
unfolding umoddi3
umoddi3_lem a b h k = rw (mod-eq-sub-div-mul a b) (omega (arith, div-mul-le_self a b))
