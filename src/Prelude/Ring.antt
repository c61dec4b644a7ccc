-- ===== src/Prelude/Ring.antt =====
-- A ring in an array: what it holds, as a list, from the oldest element on. The module is shared by
-- the rings of the program.
use wrpc_sw.Prelude.{
  ℕ, zero, suc, ◌+◌, ◌-◌, ◌≤◌, ◌<◌, ◌≡◌, refl, ap, ◌∙◌, ◌≢◌, List, [], ◌∷◌, ◌++◌, arith, length,
  get_or, set, ltb, ◌==◌, if◌then◌else◌,
}

-- The position k places after i in a ring of s places, for k up to s.
abbrev pub place : ℕ → ℕ → ℕ → ℕ
place s i k = if ltb (i + k) s then i + k else (i + k - s)

pub place_zero : (s i : ℕ) → i < s → place s i 0 ≡ i
place_zero s i h = ground arith

pub place_next : (s i n : ℕ) → i < s → suc n ≤ s → place s (place s i 1) n ≡ place s i (suc n)
place_next s i n h m = ground arith

-- The place after the last one is the place of the next element.
pub place_step :
    (s i n : ℕ)
    → i < s
    → n < s
    → (if place s i n + 1 == s then 0 else (place s i n + 1)) ≡ place s i (suc n)
place_step s i n h m = ground arith

module _ {ℓ} {A : Type ℓ} where
  get_or-set_self : (b : List A) (i : ℕ) (v d : A) → i < length b → get_or (set b i v) i d ≡ v
  get_or-set_self [] i v d h = elim h [ ]
  get_or-set_self (x ∷ b) zero v d h = refl
  get_or-set_self (x ∷ b) (suc i) v d h = get_or-set_self b i v d (omega arith)

  get_or-set_ne : (b : List A) (i j : ℕ) (v d : A) → i ≢ j → get_or (set b j v) i d ≡ get_or b i d
  get_or-set_ne [] i j v d h = refl
  get_or-set_ne (x ∷ b) zero zero v d h = absurd (h refl)
  get_or-set_ne (x ∷ b) zero (suc j) v d h = refl
  get_or-set_ne (x ∷ b) (suc i) zero v d h = refl
  get_or-set_ne (x ∷ b) (suc i) (suc j) v d h = get_or-set_ne b i j v d (λ e. h (ap suc e))

module _ {ℓ} {A : Type ℓ} (d : A) where
  -- The n elements from place i on.
  unfoldable pub ring_read : List A → ℕ → ℕ → ℕ → List A
  ring_read b s i zero = []
  ring_read b s i (suc n) = get_or b i d ∷ ring_read b s (place s i 1) n

  read_set :
      (b : List A) (s i n j : ℕ) (v : A)
      → i < s
      → n ≤ s
      → ((k : ℕ) → k < n → place s i k ≢ j)
      → ring_read (set b j v) s i n ≡ ring_read b s i n
  unfolding ring_read
  read_set b s i zero j v h m f = refl
  read_set b s i (suc n) j v h m f =
      rw
        (
          get_or-set_ne b i j v d (λ e. f 0 (omega arith) (ground arith)),
          read_set b s (place s i 1) n j v (ground arith) (omega arith)
              (λ k l e. f (suc k) (omega arith) (ground arith)),
        )
        refl

  read_snoc :
      (b : List A) (s i n : ℕ)
      → i < s
      → n < s
      → ring_read b s i (suc n) ≡ ring_read b s i n ++ (get_or b (place s i n) d ∷ [])
  unfolding ring_read
  read_snoc b s i zero h m = rw (place_zero s i h) refl
  read_snoc b s i (suc n) h m =
      ap (λ l. get_or b i d ∷ l)
        (read_snoc b s (place s i 1) n (ground arith) (omega arith)
          ∙ ap (λ j. ring_read b s (place s i 1) n ++ (get_or b j d ∷ []))
              (place_next s i n h (omega arith)))

  -- A write to the place after the last element adds it at the end.
  pub ring_put :
      (b : List A) (s i n : ℕ) (v : A)
      → length b ≡ s
      → i < s
      → n < s
      → ring_read (set b (place s i n) v) s i (suc n) ≡ ring_read b s i n ++ (v ∷ [])
  ring_put b s i n v e h m =
      read_snoc (set b (place s i n) v) s i n h m
      ∙ rw
          (
            read_set b s i n (place s i n) v h (omega arith) (λ k l q. ground arith),
            get_or-set_self b (place s i n) v d (ground arith),
          )
          refl

  -- The oldest element stands at place i, and the others from the next place on.
  pub ring_get :
      (b : List A) (s i n : ℕ)
      → ring_read b s i (suc n) ≡ get_or b i d ∷ ring_read b s (place s i 1) n
  unfolding ring_read
  ring_get b s i n = refl
