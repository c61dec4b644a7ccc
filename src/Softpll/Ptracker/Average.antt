-- ===== src/Softpll/Ptracker/Average.antt =====
-- What a phase tracker averages, against the first sample of its bin.
use native.Mathlib.Nat.{div-add-mod, mod-lt}
use wrpc_sw.Prelude.{
  ℕ, suc, ◌+◌, ◌-◌, ◌*◌, ◌/◌, ◌%◌, ◌^◌, ◌≤◌, ◌<◌, ◌≡◌, refl, ap, ◌⊎◌, true, List, [], ◌∷◌, arith,
  length, dec_lt,
}
use wrpc_sw.Prelude.Int.{
  ℤ, pos, negsuc, pos_part, neg_part, ◌+ℤ◌, ◌-ℤ◌, ◌≤ℤ◌, i32, tdiv, low_bits, word_laws,
}
use wrpc_sw.Softpll.Config.{hpll_n}
use wrpc_sw.Softpll.Ptracker.{Ptracker, adj_tab, tracker_sample}

-- `delta` lies within a quarter of a period of `first`, going round the period.
abbrev pub NearRound : ℕ → ℕ → Type 0
NearRound first delta =
    ((delta + 2 ^ hpll_n - first) % 2 ^ hpll_n ≤ 2 ^ (hpll_n - 2))
    ⊎ ((first + 2 ^ hpll_n - delta) % 2 ^ hpll_n ≤ 2 ^ (hpll_n - 2))

abbrev adjusted : ℕ → ℕ → ℤ
adjusted first delta =
    pos delta +ℤ adj_tab (delta / 2 ^ (hpll_n - 2) + first / 2 ^ (hpll_n - 2) * 4)

-- The wrap-around table takes a sample within a quarter of a period of the first one to within a
-- quarter of a period of it without going round, and leaves its low 14 bits alone.
pub adj_tab_lem :
    (first delta : ℕ)
    → first < 2 ^ hpll_n
    → delta < 2 ^ hpll_n
    → NearRound first delta
    → (pos first -ℤ pos (2 ^ (hpll_n - 2)) ≤ℤ adjusted first delta)
      × (adjusted first delta ≤ℤ pos first +ℤ pos (2 ^ (hpll_n - 2)))
      × (low_bits hpll_n (adjusted first delta) ≡ delta)
unfolding adj_tab low_bits ◌+ℤ◌ ◌-ℤ◌
adj_tab_lem first delta h1 h2 h3 = ground arith

lt_of_mul : (n a b : ℕ) → n * a < n * b → a < b
lt_of_mul n a b h = elim (dec_lt a b) [ yes p ↦ p | no p ↦ absurd (grind arith) ]

div_lower : (n f c m : ℕ) → 0 < n → n * f ≤ m + n * c → f ≤ m / n + c
div_lower n f c m h k =
    let p : n * f < n * (m / n + c + 1) = omega (arith, div-add-mod m n, mod-lt m {m = n} h) in
    omega (arith, lt_of_mul n f (m / n + c + 1) p)

div_upper : (n d m : ℕ) → 0 < n → m ≤ n * d → m / n ≤ d
div_upper n d m h k =
    let p : n * (m / n) < n * (d + 1) = omega (arith, div-add-mod m n, k, h) in
    omega (arith, lt_of_mul n (m / n) (d + 1) p)

-- C's quotient of a sum that lies between n times f - c and n times f + c lies between f - c and
-- f + c.
tdiv_between :
    (a : ℤ) (n f c : ℕ)
    → 0 < n
    → n * f + neg_part a ≤ pos_part a + n * c
    → pos_part a ≤ neg_part a + n * f + n * c
    → (f + neg_part (tdiv a (pos n)) ≤ pos_part (tdiv a (pos n)) + c)
      × (pos_part (tdiv a (pos n)) ≤ neg_part (tdiv a (pos n)) + f + c)
unfolding tdiv
tdiv_between (pos m) n f c h k l =
    let lo : f ≤ m / n + c = div_lower n f c m h (omega arith) in
    let hi : m / n ≤ f + c = div_upper n (f + c) m h (omega arith) in ground arith
tdiv_between (negsuc m) n f c h k l =
    let low : f ≤ c = omega (arith, lt_of_mul n f (c + 1) (omega arith)) in
    let hi : suc m / n ≤ c - f =
      div_upper n (c - f) (suc m) h (omega (arith, ap (λ (t : ℕ). n * t) (sub_add low))) in
    ground arith
  where
    sub_add : f ≤ c → c ≡ c - f + f
    sub_add p = omega arith

-- The samples of a bin, fed one after the other.
pub tracker_run : Ptracker → List ℕ → Ptracker
tracker_run s [] = s
tracker_run s (d ∷ ds) = tracker_run (tracker_sample s d) ds

abbrev pub AllNear : ℕ → List ℕ → Type 0
AllNear first [] = Unit
AllNear first (d ∷ ds) = (d < 2 ^ hpll_n) × NearRound first d × AllNear first ds

-- k samples of the bin of `first` have been summed.
record Summing (s : Ptracker) (first k n : ℕ) : Type 0 where
  count : s.avg_count ≡ pos k
  size : s.n_avg ≡ pos n
  sign : s.preserve_sign ≡ first / 2 ^ (hpll_n - 2) * 4
  low : k * first + neg_part s.acc ≤ pos_part s.acc + k * 4096
  high : pos_part s.acc ≤ neg_part s.acc + k * first + k * 4096
  some : 0 < k
  below : k < n
  small : n ≤ 32768
  phase : first < 2 ^ hpll_n

add_sample :
    (acc : ℤ) (first k d : ℕ)
    → first < 2 ^ hpll_n
    → k < 32768
    → k * first + neg_part acc ≤ pos_part acc + k * 4096
    → pos_part acc ≤ neg_part acc + k * first + k * 4096
    → d < 2 ^ hpll_n
    → NearRound first d
    → let z = i32 (acc +ℤ i32 (adjusted first d)) in
      (suc k * first + neg_part z ≤ pos_part z + suc k * 4096)
      × (pos_part z ≤ neg_part z + suc k * first + suc k * 4096)
add_sample acc first k d h1 h2 h3 h4 h5 h6 =
    let near = adj_tab_lem first d h1 h5 h6 in
    let most : k * first ≤ 32768 * 16384 = grind arith in omega (word_laws, near.0, near.1, most)

count_next :
    (s : Ptracker) (first k n : ℕ) → Summing s first k n → i32 (s.avg_count +ℤ pos 1) ≡ pos (suc k)
count_next s first k n h = rw h.count (omega (word_laws, h.small))

tracker_next :
    (s : Ptracker) (first k n d : ℕ)
    → Summing s first k n
    → suc k < n
    → tracker_sample s d
      ≡ record s { acc = i32 (s.acc +ℤ i32 (adjusted first d)); avg_count = pos (suc k) }
unfolding tracker_sample
tracker_next s first k n d h lt = ground (arith, count_next s first k n h)

tracker_last :
    (s : Ptracker) (first k n d : ℕ)
    → Summing s first k n
    → suc k ≡ n
    → tracker_sample s d ≡ record s {
      phase_val = tdiv (i32 (s.acc +ℤ i32 (adjusted first d))) (pos n);
      ready = true;
      acc = pos 0;
      avg_count = pos 0;
    }
unfolding tracker_sample
tracker_last s first k n d h e = ground (arith, count_next s first k n h)

tracker_next-Summing :
    (s : Ptracker) (first k n d : ℕ)
    → Summing s first k n
    → suc k < n
    → d < 2 ^ hpll_n
    → NearRound first d
    → Summing (tracker_sample s d) first (suc k) n
tracker_next-Summing s first k n d h lt hd near =
    let sum = add_sample s.acc first k d h.phase (omega (arith, h.small)) h.low h.high hd near in
    rw (tracker_next s first k n d h lt) (record {
      count = refl;
      size = h.size;
      sign = h.sign;
      low = sum.0;
      high = sum.1;
      some = omega arith;
      below = lt;
      small = h.small;
      phase = h.phase;
    })

tracker_run-Summing :
    (ds : List ℕ) (s : Ptracker) (first k n : ℕ)
    → Summing s first k n
    → k + length ds ≡ n
    → AllNear first ds
    → let s' = tracker_run s ds in
      (s'.ready ≡ true)
      × (s'.avg_count ≡ pos 0)
      × (first + neg_part s'.phase_val ≤ pos_part s'.phase_val + 4096)
      × (pos_part s'.phase_val ≤ neg_part s'.phase_val + first + 4096)
unfolding tracker_run
tracker_run-Summing [] s first k n h e a = absurd (omega (arith, h.below))
tracker_run-Summing (d ∷ []) s first k n h e (hd, near, a) =
    let last : suc k ≡ n = omega arith in
    let sum = add_sample s.acc first k d h.phase (omega (arith, h.small)) h.low h.high hd near in
    let mean =
      tdiv_between (i32 (s.acc +ℤ i32 (adjusted first d))) n first 4096 (omega arith)
        (rw (← last) sum.0) (rw (← last) sum.1) in
    rw (tracker_last s first k n d h last) (refl, refl, mean.0, mean.1)
tracker_run-Summing (d ∷ d' ∷ ds) s first k n h e (hd, near, a) =
    tracker_run-Summing (d' ∷ ds) (tracker_sample s d) first (suc k) n
      (tracker_next-Summing s first k n d h (omega arith) hd near) (omega arith) a

tracker_first :
    (s : Ptracker) (d : ℕ)
    → s.avg_count ≡ pos 0
    → tracker_sample s d
      ≡ record s { preserve_sign = d / 2 ^ (hpll_n - 2) * 4; acc = pos d; avg_count = pos 1 }
unfolding tracker_sample i32 ◌+ℤ◌ low_bits
tracker_first s d c = ground arith

-- A bin of n samples, 2 to 32768 of them, that all lie within a quarter of a period of the first
-- one, going round the period: when the last is in, the tracker is ready, has started a new bin, and
-- its phase is within a quarter of a period of the first sample without going round.
pub tracker_run_average :
    (s : Ptracker) (first : ℕ) (ds : List ℕ)
    → s.avg_count ≡ pos 0
    → s.n_avg ≡ pos (suc (length ds))
    → 0 < length ds
    → length ds < 32768
    → first < 2 ^ hpll_n
    → AllNear first ds
    → let s' = tracker_run s (first ∷ ds) in
      (s'.ready ≡ true)
      × (s'.avg_count ≡ pos 0)
      × (pos first -ℤ pos (2 ^ (hpll_n - 2)) ≤ℤ s'.phase_val)
      × (s'.phase_val ≤ℤ pos first +ℤ pos (2 ^ (hpll_n - 2)))
unfolding tracker_run
tracker_run_average s first ds c e lo hi p a =
    let run =
      tracker_run-Summing ds (tracker_sample s first) first 1 (suc (length ds)) started
        (omega arith) a in
    (run.0, run.1, omega (word_laws, run.2), omega (word_laws, run.3))
  where
    started : Summing (tracker_sample s first) first 1 (suc (length ds))
    started = ground (arith, tracker_first s first c)
