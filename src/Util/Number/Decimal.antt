-- ===== src/Util/Number/Decimal.antt =====
-- What fromdec of lib/util.c makes of decimal digits.
use wrpc_sw.Prelude.{
  ℕ, ◌+◌, ◌-◌, ◌*◌, ◌^◌, ◌≤◌, ◌<◌, ◌≡◌, refl, true, false, List, [], ◌∷◌, ◌++◌, arith,
}
use wrpc_sw.Prelude.Int.{pos, ◌*ℤ◌, ◌+ℤ◌, neg, i32, low_bits}
use wrpc_sw.Util.Number.{between, first, dec_scan, fromdec}

-- Every byte is a decimal digit.
abbrev pub AllDigits : List ℕ → Type 0
AllDigits [] = Unit
AllDigits (c ∷ s) = (b'0' ≤ c) × (c ≤ b'9') × AllDigits s

-- The number that the digits spell behind n.
abbrev pub value : ℕ → List ℕ → ℕ
value n [] = n
value n (c ∷ s) = value (n * 10 + (c - b'0')) s

le-value : (n : ℕ) (s : List ℕ) → n ≤ value n s
le-value n [] = omega arith
le-value n (c ∷ s) = omega (arith, le-value (n * 10 + (c - b'0')) s)

digit_step :
    (n c : ℕ)
    → n * 10 + (c - b'0') < 2 ^ 31
    → i32 (i32 (pos n *ℤ pos 10) +ℤ pos (c - b'0')) ≡ pos (n * 10 + (c - b'0'))
unfolding i32 low_bits ◌*ℤ◌ ◌+ℤ◌
digit_step n c h = ground arith

dec_scan-digits :
    (ds rest : List ℕ) (n : ℕ)
    → AllDigits ds
    → between b'0' b'9' (first rest) ≡ false
    → value n ds < 2 ^ 31
    → dec_scan (ds ++ rest) (pos n) ≡ (rest, pos (value n ds))
unfolding dec_scan
dec_scan-digits [] [] n a st h = refl
dec_scan-digits [] (c ∷ rest) n a st h = rw (dec_scan, st) refl
dec_scan-digits (c ∷ ds) rest n (lo, hi, a) st h =
    let digit : between b'0' b'9' c ≡ true = ground arith in
    rw (dec_scan, digit, digit_step n c (omega (arith, le-value (n * 10 + (c - b'0')) ds)))
      (dec_scan-digits ds rest (n * 10 + (c - b'0')) a st h)

neg-i32 : (v : ℕ) → v < 2 ^ 31 → i32 (neg (pos v)) ≡ neg (pos v)
unfolding i32 low_bits neg
neg-i32 v h = ground arith

-- One or more digits with no digit behind them, of a value below 2^31, are read as that value, and
-- the rest of the text is returned. With a minus in front the value is negated.
pub fromdec_lem :
    (c : ℕ) (ds rest : List ℕ)
    → AllDigits (c ∷ ds)
    → between b'0' b'9' (first rest) ≡ false
    → value 0 (c ∷ ds) < 2 ^ 31
    → (fromdec ((c ∷ ds) ++ rest) ≡ (rest, pos (value 0 (c ∷ ds))))
      × (fromdec (b'-' ∷ ((c ∷ ds) ++ rest)) ≡ (rest, neg (pos (value 0 (c ∷ ds)))))
unfolding fromdec
fromdec_lem c ds rest a st h =
    let e = dec_scan-digits (c ∷ ds) rest 0 a st h in
    (ground (arith, e), rw (e, neg-i32 (value 0 (c ∷ ds)) h) refl)
