-- ===== src/Prelude/Ranges.antt =====
-- A test on all numbers below a bound, to be evaluated.
use wrpc_sw.Prelude.{
  ℕ, zero, suc, ◌<◌, ◌≡◌, Bool, true, false, if◌then◌else◌, arith, Bool-cases, inl, inr, dec_lt, ap,
  ◌∙◌,
}

unfoldable pub holds_up_to : (ℕ → Bool) → ℕ → Bool
holds_up_to test zero = true
holds_up_to test (suc m) = if test m then holds_up_to test m else false

-- It holds of each.
pub holds_up_to-lt : (test : ℕ → Bool) (m i : ℕ) → i < m → holds_up_to test m ≡ true → test i ≡ true
unfolding holds_up_to
holds_up_to-lt test zero i below all = elim below [ ]
holds_up_to-lt test (suc m) i below all = elim (Bool-cases (test m)) [
  | inr fails ↦ ground (arith, fails)
  | inl last ↦ elim (dec_lt i m) [
    | yes earlier ↦ holds_up_to-lt test m i earlier (ground (arith, last))
    | no same ↦ let e : i ≡ m = omega arith in ap test e ∙ last
  ]
]
