-- ===== src/Ip/Checksum.antt =====
-- ipv4_checksum of lib/ipv4.c, and that a block which carries it verifies.
use wrpc_sw.Prelude.{
  ℕ, zero, suc, ◌+◌, ◌-◌, ◌*◌, ◌/◌, ◌%◌, ◌^◌, ◌≤◌, ◌<◌, ◌≡◌, List, [], ◌∷◌, arith,
}

-- The loop: the sum of the 16-bit numbers. Bytes behind the end of the buffer count as 0.
abbrev pub sum_shorts : ℕ → List ℕ → ℕ
sum_shorts zero buf = 0
sum_shorts (suc n) [] = 0
sum_shorts (suc n) (a ∷ []) = a * 2 ^ 8
sum_shorts (suc n) (a ∷ b ∷ buf) = a * 2 ^ 8 + b + sum_shorts n buf

-- The carries are added back, twice, and the low 16 bits are complemented.
unfoldable pub fold_sum : ℕ → ℕ
fold_sum sum =
    let once = sum / 2 ^ 16 + sum % 2 ^ 16 in
    let twice = (once + once / 2 ^ 16) % 2 ^ 32 in 2 ^ 16 - 1 - twice % 2 ^ 16

unfoldable pub ipv4_checksum : List ℕ → ℕ → ℕ
ipv4_checksum buf shorts = fold_sum (sum_shorts shorts buf % 2 ^ 32)

-- With the checksum in place the same computation gives 0, for blocks of up to 65535 numbers.
pub fold_sum-verifies : (sum : ℕ) → sum + 2 ^ 16 ≤ 2 ^ 32 → fold_sum (sum + fold_sum sum) ≡ 0
unfolding fold_sum
fold_sum-verifies sum h = ground arith

-- Also when a checksum of 0 is sent as 0xffff, unless all of the block is 0.
pub fold_sum-ffff :
    (sum : ℕ) → 0 < sum → sum + 2 ^ 16 ≤ 2 ^ 32 → fold_sum sum ≡ 0 → fold_sum (sum + 0xffff) ≡ 0
unfolding fold_sum
fold_sum-ffff sum z h e = ground arith

pub fold_sum-lt : (sum : ℕ) → fold_sum sum < 2 ^ 16
unfolding fold_sum
fold_sum-lt sum = omega arith
