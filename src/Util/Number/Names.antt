-- ===== src/Util/Number/Names.antt =====
-- strcasecmp of lib/util.c compares names without the case of their letters.
use wrpc_sw.Prelude.{
  ℕ, ◌≡◌, ◌≢◌, refl, sym, ap, ap₂, ◌⊎◌, inl, inr, true, false, List, [], ◌∷◌, map, arith, ◌==◌,
  Bool-cases,
}
use wrpc_sw.Prelude.Int.{pos, ◌-ℤ◌}
use wrpc_sw.Util.Number.{tolower, first, next, strcasecmp}

-- No byte of the text is 0, which would end it.
abbrev pub NoZero : List ℕ → Type 0
NoZero [] = Unit
NoZero (c ∷ s) = (c ≢ 0) × NoZero s

tolower-zero : (c : ℕ) → c ≢ 0 → (0 == tolower c) ≡ false
tolower-zero c h = ground (arith, h)

tolower-zero' : (c : ℕ) → c ≢ 0 → (tolower c == 0) ≡ false
tolower-zero' c h = ground (arith, h)

eq_false : (c d : ℕ) → c ≢ d → (c == d) ≡ false
eq_false c d h = ground (arith, h)

eq_true : (c d : ℕ) → (c == d) ≡ true → c ≡ d
eq_true c d h = ground (arith, h)

eq_false_ne : (c d : ℕ) → (c == d) ≡ false → c ≢ d
eq_false_ne c d h = ground (arith, h)

heads_differ : {c d : ℕ} {s t : List ℕ} → c ≢ d → c ∷ s ≢ d ∷ t
heads_differ h e = h (ap first e)

tails : {c d : ℕ} {s t : List ℕ} → c ∷ s ≡ d ∷ t → s ≡ t
tails e = ap next e

sub-nonzero : (c d : ℕ) → c ≢ d → pos c -ℤ pos d ≢ pos 0
unfolding ◌-ℤ◌
sub-nonzero c d h = ground (arith, h)

zero_other : (c d : ℕ) → (tolower c == tolower d) ≡ false → d ≢ c
zero_other c d h e = ground (arith, h, e)

-- The names are the same but for the case of letters, and compare as 0, or they differ and do not.
pub strcasecmp-cases :
    (s1 s2 : List ℕ)
    → NoZero s1
    → NoZero s2
    → ((strcasecmp s1 s2 ≡ pos 0) × (map tolower s1 ≡ map tolower s2))
      ⊎ ((strcasecmp s1 s2 ≢ pos 0) × (map tolower s1 ≢ map tolower s2))
unfolding strcasecmp
strcasecmp-cases [] [] h k = inl (refl, refl)
strcasecmp-cases [] (d ∷ s2) h (d0, k) =
    rw (tolower-zero d d0) (inr (sub-nonzero d 0 d0, λ e. cc e))
strcasecmp-cases (c ∷ s1) [] (c0, h) k =
    rw (tolower-zero' c c0) (inr (sub-nonzero 0 c (λ e. c0 (sym e)), λ e. cc e))
strcasecmp-cases (c ∷ s1) (d ∷ s2) (c0, h) (d0, k) = elim (Bool-cases (tolower c == tolower d)) [
  | inl e ↦
      rw (e, eq_false c 0 c0)
        (elim (strcasecmp-cases s1 s2 h k) [
          | inl (z, m) ↦ inl (z, ap₂ (λ x y. x ∷ y) (eq_true (tolower c) (tolower d) e) m)
          | inr (z, m) ↦ inr (z, λ f. m (tails f))
        ])
  | inr e ↦ rw e (
      inr
        (sub-nonzero d c (zero_other c d e), heads_differ (eq_false_ne (tolower c) (tolower d) e)))
]
