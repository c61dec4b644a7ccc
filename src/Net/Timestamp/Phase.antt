-- ===== src/Net/Timestamp/Phase.antt =====
-- What the linearization of lib/net.c yields: the phase is the same whichever edge is picked.
use wrpc_sw.Prelude.{
  ℕ, ◌+◌, ◌-◌, ◌%◌, ◌<◌, ◌≡◌, refl, ap, ◌⊎◌, Bool, true, false, ◌||◌, arith, ltb, if◌then◌else◌,
}
use wrpc_sw.Prelude.Int.{ℤ, pos, ◌+ℤ◌, ◌-ℤ◌, ◌*ℤ◌, ◌≤ℤ◌, ◌<ℤ◌, i32, tdiv, low_bits}
use wrpc_sw.Net.Timestamp.{
  WrTimestamp, giga, rising_phase, falling_phase, near_transition, pick_falling, carry_second,
  ptpd_netif_linearize_rx_timestamp,
}

-- The distance from t up to p round a clock period of 8000 ps.
abbrev pub distance : ℕ → ℕ → ℕ
distance p t = (p + 8000 - t) % 8000

rising :
    (p t : ℕ) → p < 8000 → t < 8000 → rising_phase (pos p) (pos t) (pos 8000) ≡ pos (distance p t)
unfolding rising_phase i32 low_bits ◌-ℤ◌ ◌+ℤ◌
rising p t h k = ground arith

falling :
    (p t : ℕ)
    → p < 8000
    → t < 8000
    → falling_phase (pos p) (pos t) (pos 8000) ≡ pos ((distance p t + 4000) % 8000)
unfolding falling_phase i32 low_bits ◌-ℤ◌ ◌+ℤ◌ tdiv
falling p t h k = ground arith

near : (d : ℕ) → d < 8000 → near_transition (pos d) (pos 8000) ≡ (ltb 6000 d || ltb d 2000)
unfolding near_transition i32 low_bits ◌*ℤ◌ tdiv
near d h = ground arith

-- The nanoseconds of the falling edge: one tick less when the rising counter is ahead.
abbrev pub fall_nsec : Bool → ℕ → ℤ
fall_nsec true n = pos n -ℤ pos 8
fall_nsec false n = pos n

picked :
    (b : Bool) (n d : ℕ)
    → n < 1000000000
    → d < 8000
    → pick_falling (fall_nsec b n) (pos ((d + 4000) % 8000)) (pos 8000)
      ≡ (if ltb d 4000 then fall_nsec b n +ℤ pos 8 else fall_nsec b n, pos d)
unfolding pick_falling i32 low_bits ◌-ℤ◌ ◌+ℤ◌ tdiv
picked true n d h k = ground arith
picked false n d h k = ground arith

-- An independent description of the nanoseconds before the final carry: away from the transition,
-- the rising counter. Near it the falling counter, and one tick more on the side just after it.
abbrev pub chosen_nsec : Bool → ℕ → ℕ → ℤ
chosen_nsec b n d =
    if ltb 6000 d || ltb d 2000
    then (if ltb d 4000 then fall_nsec b n +ℤ pos 8 else fall_nsec b n)
    else pos n

ahead_nsec :
    (b : Bool) (n : ℕ)
    → n < 1000000000
    → (if b then i32 (pos n -ℤ tdiv (pos 8000) (pos 1000)) else pos n) ≡ fall_nsec b n
unfolding i32 low_bits tdiv ◌-ℤ◌
ahead_nsec true n h = ground arith
ahead_nsec false n h = refl

-- For a phase and a transition point within a clock period of 8000 ps and nanoseconds below a
-- second, the linearized phase is the distance from the transition point to the phase round the
-- period, whichever edge is picked. The nanoseconds are the rising counter's when that distance is
-- from 2000 to 6000. Otherwise they are the falling counter's, and one tick more when the distance
-- is below 4000. A whole second is carried over.
pub linearize_rx_timestamp_lem :
    (ts : WrTimestamp) (n p t : ℕ) (ahead : Bool)
    → ts.nsec ≡ pos n
    → n < 1000000000
    → p < 8000
    → t < 8000
    → ptpd_netif_linearize_rx_timestamp ts (pos p) ahead (pos t) (pos 8000)
      ≡ carry_second (record ts {
        raw_phase = pos p;
        nsec = chosen_nsec ahead n (distance p t);
        phase = pos (distance p t);
      })
unfolding ptpd_netif_linearize_rx_timestamp
linearize_rx_timestamp_lem ts n p t ahead e hn hp ht =
    rw
      (
        e,
        rising p t hp ht,
        falling p t hp ht,
        near (distance p t) (omega arith),
        ahead_nsec ahead n hn,
      )
      (either (ltb 6000 (distance p t) || ltb (distance p t) 2000) (pos n)
        (picked ahead n (distance p t) hn (omega arith)))
  where
    result : ℤ × ℤ → WrTimestamp
    result (nsec, phase) =
        carry_second (record ts { raw_phase = pos p; nsec = nsec; phase = phase })

    either :
        (c : Bool) (y : ℤ) {f : ℤ × ℤ} {x d : ℤ}
        → f ≡ (x, d)
        → result (if c then f else (y, d)) ≡ result (if c then x else y, d)
    either true y k = ap result k
    either false y k = refl

carried :
    (b : Bool) (ts : WrTimestamp) (n p d : ℕ)
    → n < 1000000000
    → d < 8000
    → let r =
        carry_second (record ts { raw_phase = pos p; nsec = chosen_nsec b n d; phase = pos d }) in
      (pos 0 ≤ℤ r.phase)
      × (r.phase <ℤ pos 8000)
      × (r.nsec <ℤ giga)
      × ((pos 0 ≤ℤ r.nsec) ⊎ ((b ≡ true) × (n < 8)))
unfolding carry_second i32 low_bits ◌-ℤ◌ ◌+ℤ◌
carried true ts n p d h k = (ground arith, ground arith, ground arith, ground arith)
carried false ts n p d h k = (ground arith, ground arith, ground arith, ground arith)

-- For a phase and a transition point within a clock period of 8000 ps and nanoseconds below a
-- second, the linearized phase is within the clock period. The nanoseconds are below a second, and
-- not negative unless the rising counter was ahead in the first tick of a second.
pub linearize_rx_timestamp-bounds :
    (ts : WrTimestamp) (n p t : ℕ) (ahead : Bool)
    → ts.nsec ≡ pos n
    → n < 1000000000
    → p < 8000
    → t < 8000
    → let r = ptpd_netif_linearize_rx_timestamp ts (pos p) ahead (pos t) (pos 8000) in
      (pos 0 ≤ℤ r.phase)
      × (r.phase <ℤ pos 8000)
      × (r.nsec <ℤ giga)
      × ((pos 0 ≤ℤ r.nsec) ⊎ ((ahead ≡ true) × (n < 8)))
linearize_rx_timestamp-bounds ts n p t ahead e hn hp ht =
    rw (linearize_rx_timestamp_lem ts n p t ahead e hn hp ht)
      (carried ahead ts n p (distance p t) hn (omega arith))
