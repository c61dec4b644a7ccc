-- ===== src/Pps/Snapshot.antt =====
-- shw_pps_gen_get_time of dev/pps_gen.c, while the generator counts. `at t` is the generator's time at
-- the t-th register read: its seconds and its clock cycles.
use wrpc_sw.Prelude.{
  ℕ, zero, suc, ◌+◌, ◌*◌, ◌/◌, ◌%◌, ◌^◌, ◌≤◌, ◌<◌, ◌≡◌, ◌≢◌, refl, ap, true, false, Option, none,
  some, ◌==◌, if◌then◌else◌, arith, ◌∙◌, dec_lt, Bool-cases, inl, inr, ◌⊎◌,
}

pub record Time : Type 0 where
  pub seconds : ℕ
  pub cycles : ℕ

-- CNTR_UTCLO and CNTR_UTCHI, of which the upper 24 bits do not count.
abbrev pub cntr_utclo : Time → ℕ
cntr_utclo t = t.seconds % 2 ^ 32

abbrev pub cntr_utchi : Time → ℕ
cntr_utchi t = t.seconds / 2 ^ 32 % 2 ^ 8

-- Five readings of the seconds, at most one second apart: if the first two and the last two agree, torn
-- as they may be, no second has passed.
torn :
    (s0 s1 s2 s3 s4 : ℕ)
    → s0 ≤ s1
    → s1 ≤ s2
    → s2 ≤ s3
    → s3 ≤ s4
    → s4 ≤ s0 + 1
    → s4 < 2 ^ 40
    → s3 % 2 ^ 32 + s4 / 2 ^ 32 % 2 ^ 8 * 2 ^ 32 ≡ s0 % 2 ^ 32 + s1 / 2 ^ 32 % 2 ^ 8 * 2 ^ 32
    → s3 % 2 ^ 32 + s4 / 2 ^ 32 % 2 ^ 8 * 2 ^ 32 ≡ s2
torn s0 s1 s2 s3 s4 a b c d e f g = omega arith

differs : (a b : ℕ) → a == b ≡ false → a ≢ b
differs a b e = ground (arith, e)

-- And if no second has passed, they agree.
whole :
    (s0 s1 s3 s4 : ℕ)
    → s0 ≤ s1
    → s1 ≤ s3
    → s3 ≤ s4
    → s4 ≤ s0
    → s3 % 2 ^ 32 + s4 / 2 ^ 32 % 2 ^ 8 * 2 ^ 32 ≡ s0 % 2 ^ 32 + s1 / 2 ^ 32 % 2 ^ 8 * 2 ^ 32
whole s0 s1 s3 s4 a b c d =
    let e : s1 ≡ s0 = omega arith in
    let f : s3 ≡ s0 = omega arith in let g : s4 ≡ s0 = omega arith in rw (e, f, g) refl

module _ (at : ℕ → Time) (ns_per_clock : ℕ) where
  -- Two reads, at t and t + 1.
  unfoldable pub pps_get_utc : ℕ → ℕ
  pps_get_utc t = cntr_utclo (at t) + cntr_utchi (at (suc t)) * 2 ^ 32

  -- The loop, which starts to read at t; none if it has not ended after so many rounds.
  unfoldable pub shw_pps_gen_get_time : ℕ → ℕ → Option (ℕ × ℕ)
  shw_pps_gen_get_time zero t = none
  shw_pps_gen_get_time (suc rounds) t =
      let sec1 = pps_get_utc t in
      let ns_cnt = (at (suc (suc t))).cycles % 2 ^ 28 in
      let sec2 = pps_get_utc (suc (suc (suc t))) in
      let rest = shw_pps_gen_get_time rounds (suc (suc (suc (suc (suc t))))) in
      if sec2 == sec1 then some (sec2, ns_cnt * ns_per_clock % 2 ^ 32) else rest

  -- The time goes on, and 40 bits hold its seconds.
  pub record Runs : Type 0 where
    pub goes_on : (t : ℕ) → (at t).seconds ≤ (at (suc t)).seconds
    pub fits : (t : ℕ) → (at t).seconds < 2 ^ 40

  -- What a round returns.
  abbrev pub reading : ℕ → ℕ × ℕ
  reading t =
      (pps_get_utc (suc (suc (suc t))), (at (suc (suc t))).cycles % 2 ^ 28 * ns_per_clock % 2 ^ 32)

  abbrev pub snapshot : ℕ → ℕ × ℕ
  snapshot t = ((at t).seconds, (at t).cycles % 2 ^ 28 * ns_per_clock % 2 ^ 32)

  round_right :
      (t : ℕ)
      → Runs
      → (at (suc (suc (suc (suc t))))).seconds ≤ (at t).seconds + 1
      → pps_get_utc (suc (suc (suc t))) ≡ pps_get_utc t
      → reading t ≡ snapshot (suc (suc t))
  unfolding pps_get_utc
  round_right t r h e =
      ap (λ s. (s, (at (suc (suc t))).cycles % 2 ^ 28 * ns_per_clock % 2 ^ 32))
        (torn (at t).seconds (at (suc t)).seconds (at (suc (suc t))).seconds
          (at (suc (suc (suc t)))).seconds (at (suc (suc (suc (suc t))))).seconds (r.goes_on t)
          (r.goes_on (suc t)) (r.goes_on (suc (suc t))) (r.goes_on (suc (suc (suc t)))) h
          (r.fits (suc (suc (suc (suc t))))) e)

  still :
      (t : ℕ)
      → Runs
      → (at (suc (suc (suc (suc t))))).seconds ≤ (at t).seconds
      → pps_get_utc (suc (suc (suc t))) ≡ pps_get_utc t
  unfolding pps_get_utc
  still t r h =
      let b = r.goes_on (suc t) in
      let c = r.goes_on (suc (suc t)) in
      whole (at t).seconds (at (suc t)).seconds (at (suc (suc (suc t)))).seconds
        (at (suc (suc (suc (suc t))))).seconds (r.goes_on t) (omega (arith, b, c))
        (r.goes_on (suc (suc (suc t)))) h

  ended :
      (rounds t : ℕ)
      → pps_get_utc (suc (suc (suc t))) ≡ pps_get_utc t
      → shw_pps_gen_get_time (suc rounds) t ≡ some (reading t)
  unfolding shw_pps_gen_get_time
  ended rounds t e =
      let same : pps_get_utc (suc (suc (suc t))) == pps_get_utc t ≡ true = ground (arith, e) in
      rw same refl

  again :
      (rounds t : ℕ)
      → pps_get_utc (suc (suc (suc t))) == pps_get_utc t ≡ false
      → shw_pps_gen_get_time (suc rounds) t
        ≡ shw_pps_gen_get_time rounds (suc (suc (suc (suc (suc t)))))
  unfolding shw_pps_gen_get_time
  again rounds t e = rw e refl

  -- If at most one second passes during ten reads, the loop ends after one or two rounds, and the seconds
  -- and nanoseconds that it gives are those of one moment while it ran, though each is read by itself.
  pub shw_pps_gen_get_time-snapshot :
      (t rounds : ℕ)
      → Runs
      → (at (suc (suc (suc (suc (suc (suc (suc (suc (suc t)))))))))).seconds ≤ (at t).seconds + 1
      → (m : ℕ) × ((m ≡ suc (suc t)) ⊎ (m ≡ suc (suc (suc (suc (suc (suc (suc t))))))))
        × (shw_pps_gen_get_time (suc (suc rounds)) t ≡ some (snapshot m))
  shw_pps_gen_get_time-snapshot t rounds r h =
      let g0 = r.goes_on t in
      let g1 = r.goes_on (suc t) in
      let g2 = r.goes_on (suc (suc t)) in
      let g3 = r.goes_on (suc (suc (suc t))) in
      let g4 = r.goes_on (suc (suc (suc (suc t)))) in
      let g5 = r.goes_on (suc (suc (suc (suc (suc t))))) in
      let g6 = r.goes_on (suc (suc (suc (suc (suc (suc t)))))) in
      let g7 = r.goes_on (suc (suc (suc (suc (suc (suc (suc t))))))) in
      let g8 = r.goes_on (suc (suc (suc (suc (suc (suc (suc (suc t)))))))) in
      elim (Bool-cases (pps_get_utc (suc (suc (suc t))) == pps_get_utc t)) [
        | inl e ↦
            let same : pps_get_utc (suc (suc (suc t))) ≡ pps_get_utc t = ground (arith, e) in
            let right = round_right t r (omega (arith, g4, g5, g6, g7, g8)) same in
            (suc (suc t), inl refl, ended (suc rounds) t same ∙ ap (λ x. some x) right)
        | inr e ↦
            let passed : (at t).seconds < (at (suc (suc (suc (suc t))))).seconds =
              elim (dec_lt (at t).seconds (at (suc (suc (suc (suc t))))).seconds) [
                | yes p ↦ p
                | no p ↦ absurd (
                    differs (pps_get_utc (suc (suc (suc t)))) (pps_get_utc t) e
                      (still t r (omega (arith, p))))
              ] in
            let same = still (suc (suc (suc (suc (suc t))))) r (omega (arith, passed, g4)) in
            let right =
              round_right (suc (suc (suc (suc (suc t))))) r (omega (arith, passed, g4)) same in
            (
              suc (suc (suc (suc (suc (suc (suc t)))))),
              inr refl,
              again (suc rounds) t e
                  ∙ ended rounds (suc (suc (suc (suc (suc t))))) same
                  ∙ ap (λ x. some x) right,
            )
      ]
