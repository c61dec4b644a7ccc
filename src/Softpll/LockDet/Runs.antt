-- ===== src/Softpll/LockDet/Runs.antt =====
-- The lock detector over a sequence of samples: how long it takes to lock and to unlock.
use wrpc_sw.Prelude.{
  ℕ, zero, suc, ◌+◌, ◌-◌, ◌≤◌, ◌<◌, ◌≡◌, ◌∙◌, refl, true, false, arith, List, [], ◌∷◌, length, leb,
  ltb, dec_lt,
}
use wrpc_sw.Prelude.Int.{ℤ, pos, ◌≤ℤ◌, ◌<ℤ◌, ◌+ℤ◌, ◌-ℤ◌}
use wrpc_sw.Softpll.LockDet.{LockDet, abs, ld_update, ld_init}

-- The samples fed one after the other.
unfoldable pub ld_run : LockDet → List ℤ → LockDet
ld_run ld [] = ld
ld_run ld (y ∷ ys) = ld_run (ld_update ld y).0 ys

abbrev pub AllWithin : ℤ → List ℤ → Type 0
AllWithin t [] = Unit
AllWithin t (y ∷ ys) = (abs y ≤ℤ t) × AllWithin t ys

abbrev pub AllOutside : ℤ → List ℤ → Type 0
AllOutside t [] = Unit
AllOutside t (y ∷ ys) = (t <ℤ abs y) × AllOutside t ys

-- A detector on its way up: c good samples counted of the n that it wants.
record Counting (ld : LockDet) (c n : ℕ) : Type 0 where
  cnt : ld.lock_cnt ≡ pos c
  samples : ld.lock_samples ≡ pos n
  flag : ld.locked ≡ leb n c
  below : c ≤ n

ld_update_good :
    (ld : LockDet) (c n : ℕ) (y : ℤ)
    → Counting ld c n
    → abs y ≤ℤ ld.threshold
    → c < n
    → Counting (ld_update ld y).0 (suc c) n × ((ld_update ld y).0.threshold ≡ ld.threshold)
unfolding ld_update ◌+ℤ◌
ld_update_good ld c n y k h lt = ground arith

ld_update_full :
    (ld : LockDet) (n : ℕ) (y : ℤ)
    → Counting ld n n
    → abs y ≤ℤ ld.threshold
    → Counting (ld_update ld y).0 n n × ((ld_update ld y).0.threshold ≡ ld.threshold)
unfolding ld_update ◌+ℤ◌
ld_update_full ld n y k h = ground arith

ld_run_full :
    (ys : List ℤ) (ld : LockDet) (n : ℕ)
    → Counting ld n n
    → AllWithin ld.threshold ys
    → (ld_run ld ys).locked ≡ true
unfolding ld_run
ld_run_full [] ld n k a = ground arith
ld_run_full (y ∷ ys) ld n k (h, a) =
    let (k', e) = ld_update_full ld n y k h in ld_run_full ys (ld_update ld y).0 n k' (rw e a)

ld_run-Counting :
    (ys : List ℤ) (ld : LockDet) (c n : ℕ)
    → Counting ld c n
    → AllWithin ld.threshold ys
    → (ld_run ld ys).locked ≡ leb n (c + length ys)
unfolding ld_run
ld_run-Counting [] ld c n k a = ground arith
ld_run-Counting (y ∷ ys) ld c n k (h, a) = elim (dec_lt c n) [
  | yes p ↦
      let (k', e) = ld_update_good ld c n y k h p in
      ld_run-Counting ys (ld_update ld y).0 (suc c) n k' (rw e a) ∙ shift
  | no p ↦
      let e : c ≡ n = omega arith in ld_run_full (y ∷ ys) ld n (rw e at k) (h, a) ∙ ground arith
]
  where
    shift : leb n (suc c + length ys) ≡ leb n (c + length (y ∷ ys))
    shift = ground arith

-- From ld_init, a sequence of samples that all lie within the threshold leaves the detector locked
-- exactly if it has at least lock_samples samples, where lock_samples is positive.
pub ld_run_locks :
    (ld : LockDet) (n : ℕ) (ys : List ℤ)
    → ld.lock_samples ≡ pos n
    → 0 < n
    → AllWithin ld.threshold ys
    → (ld_run (ld_init ld) ys).locked ≡ leb n (length ys)
unfolding ld_init
ld_run_locks ld n ys e p a =
    ld_run-Counting ys (ld_init ld) 0 n
      (record { cnt = refl; samples = e; flag = ground arith; below = omega arith }) a
    ∙ ground arith

-- A detector on its way down: locked with count c above the d at which it unlocks.
record Dropping (ld : LockDet) (c d : ℕ) : Type 0 where
  cnt : ld.lock_cnt ≡ pos c
  samples : ld.delock_samples ≡ pos d
  flag : ld.locked ≡ true
  above : d < c

ld_update_bad :
    (ld : LockDet) (c d : ℕ) (y : ℤ)
    → Dropping ld (suc c) d
    → ld.threshold <ℤ abs y
    → d < c
    → Dropping (ld_update ld y).0 c d × ((ld_update ld y).0.threshold ≡ ld.threshold)
unfolding ld_update ◌-ℤ◌
ld_update_bad ld c d y k h lt = ground arith

record Dropped (ld : LockDet) (d : ℕ) : Type 0 where
  samples : ld.delock_samples ≡ pos d
  cnt : ld.lock_cnt ≡ pos 0
  flag : ld.locked ≡ false

ld_update_last :
    (ld : LockDet) (d : ℕ) (y : ℤ)
    → Dropping ld (suc d) d
    → ld.threshold <ℤ abs y
    → Dropped (ld_update ld y).0 d × ((ld_update ld y).0.threshold ≡ ld.threshold)
unfolding ld_update ◌-ℤ◌
ld_update_last ld d y k h = ground arith

ld_update-Dropped :
    (ld : LockDet) (d : ℕ) (y : ℤ)
    → Dropped ld d
    → ld.threshold <ℤ abs y
    → Dropped (ld_update ld y).0 d × ((ld_update ld y).0.threshold ≡ ld.threshold)
unfolding ld_update ◌-ℤ◌
ld_update-Dropped ld d y k h = ground arith

ld_run-Dropped :
    (ys : List ℤ) (ld : LockDet) (d : ℕ)
    → Dropped ld d
    → AllOutside ld.threshold ys
    → (ld_run ld ys).locked ≡ false
unfolding ld_run
ld_run-Dropped [] ld d k a = k.flag
ld_run-Dropped (y ∷ ys) ld d k (h, a) =
    let (k', e) = ld_update-Dropped ld d y k h in ld_run-Dropped ys (ld_update ld y).0 d k' (rw e a)

-- A locked detector whose count is c, above delock_samples = d, is still locked after a sequence of
-- samples that all lie outside the threshold exactly if it has fewer than c - d samples.
pub ld_run_unlocks :
    (ys : List ℤ) (ld : LockDet) (c d : ℕ)
    → ld.lock_cnt ≡ pos c
    → ld.delock_samples ≡ pos d
    → ld.locked ≡ true
    → d < c
    → AllOutside ld.threshold ys
    → (ld_run ld ys).locked ≡ ltb (length ys) (c - d)
unfolding ld_run
ld_run_unlocks [] ld c d ec ed f h a = ground arith
ld_run_unlocks (y ∷ ys) ld zero d ec ed f h a = absurd (omega arith)
ld_run_unlocks (y ∷ ys) ld (suc c) d ec ed f h (p, a) = elim (dec_lt d c) [
  | yes q ↦
      let (k, e) = ld_update_bad ld c d y drop p q in
      ld_run_unlocks ys (ld_update ld y).0 c d k.cnt k.samples k.flag k.above (rw e a)
      ∙ ground arith
  | no q ↦
      let eq : c ≡ d = omega arith in
      let (k, e) = ld_update_last ld d y (rw eq at drop) p in
      ld_run-Dropped ys (ld_update ld y).0 d k (rw e a) ∙ ground arith
]
  where
    drop : Dropping ld (suc c) d
    drop = record { cnt = ec; samples = ed; flag = f; above = h }
