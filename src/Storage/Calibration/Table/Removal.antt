-- ===== src/Storage/Calibration/Table/Removal.antt =====
-- What storage_remove_calibration_parameter of dev/storage-cal.c does to the table.
use mathlib.Core.Path.{subst}
use wrpc_sw.Prelude.{
  ℕ, zero, suc, ◌-◌, ◌≤◌, ◌<◌, ◌≡◌, refl, sym, ap, ◌∙◌, ◌⊎◌, inl, inr, none, some, List, false, [],
  ◌∷◌, length, get_or, set, ◌==◌, if◌then◌else◌, arith, length-set, Option-cases, Bool-cases,
}
use wrpc_sw.Storage.Calibration.{
  CalParam, CalData, no_param, find_param, storage_get_calibration_parameter,
  storage_remove_calibration_parameter,
}
use wrpc_sw.Storage.Calibration.Table.{Distinct, IsTable, value_of, get_lem, absent, found-lt}

-- What stands behind the first n does not matter.
value_of-set_behind :
    (j n : ℕ) (ps : List CalParam) (k : ℕ) (q : CalParam)
    → n ≤ k
    → value_of j n (set ps k q) ≡ value_of j n ps
unfolding value_of
value_of-set_behind j zero ps k q h = refl
value_of-set_behind j (suc n) [] k q h = refl
value_of-set_behind j (suc n) (p ∷ ps) zero q h = elim h [ ]
value_of-set_behind j (suc n) (p ∷ ps) (suc k) q h =
    ground (arith, value_of-set_behind j n ps k q (omega arith))

find_param-set_behind :
    (j n : ℕ) (ps : List CalParam) (k : ℕ) (q : CalParam)
    → n ≤ k
    → find_param j n (set ps k q) ≡ find_param j n ps
unfolding find_param
find_param-set_behind j zero ps k q h = refl
find_param-set_behind j (suc n) [] k q h = refl
find_param-set_behind j (suc n) (p ∷ ps) zero q h = elim h [ ]
find_param-set_behind j (suc n) (p ∷ ps) (suc k) q h =
    ground (arith, find_param-set_behind j n ps k q (omega arith))

-- The last of n + 1 parameters is looked at last.
value_of_last :
    (j n : ℕ) (ps : List CalParam)
    → n < length ps
    → value_of j n ps ≡ none
    → value_of j (suc n) ps
      ≡ (if j == (get_or ps n no_param).id then some (get_or ps n no_param).value else none)
unfolding value_of
value_of_last j n [] h e = elim h [ ]
value_of_last j zero (p ∷ ps) h e = refl
value_of_last j (suc n) (p ∷ ps) h e = ground (arith, value_of_last j n ps (omega arith))

value_of_first :
    (j n x : ℕ) (ps : List CalParam) → value_of j n ps ≡ some x → value_of j (suc n) ps ≡ some x
unfolding value_of
value_of_first j zero x ps e = absurd (cc)
value_of_first j (suc n) x [] e = absurd (cc)
value_of_first j (suc n) x (p ∷ ps) e = ground (arith, value_of_first j n x ps)

-- The place of a parameter is overwritten by one that is not there yet.
value_of-replace :
    (id j n : ℕ) (ps : List CalParam) (i : ℕ) (q : CalParam)
    → Distinct n ps
    → find_param id n ps ≡ some i
    → value_of q.id n ps ≡ none
    → value_of j n (set ps i q)
      ≡ (if j == q.id then some q.value else (if id == j then none else value_of j n ps))
unfolding find_param value_of
value_of-replace id j zero ps i q d e f = absurd (cc)
value_of-replace id j (suc n) [] i q d e f = absurd (cc)
value_of-replace id j (suc n) (p ∷ ps) i q d e f = elim (Bool-cases (id == p.id)) [
  | inl t ↦ ground (arith, t, absent p.id n ps d.0)
  | inr t ↦ elim (Option-cases (find_param id n ps)) [
    | inl g ↦ ground (arith, g)
    | inr (k, g) ↦ ground (arith, g, value_of-replace id j n ps k q d.1 g)
  ]
]

find_param-replace :
    (j n : ℕ) (ps : List CalParam) (i : ℕ) (q : CalParam)
    → find_param j n ps ≡ none
    → j == q.id ≡ false
    → find_param j n (set ps i q) ≡ none
unfolding find_param
find_param-replace j zero ps i q e h = refl
find_param-replace j (suc n) [] i q e h = refl
find_param-replace j (suc n) (p ∷ ps) zero q e h = elim (Option-cases (find_param j n ps)) [
  | inl f ↦ ground (arith, f)
  | inr (k, f) ↦ ground (arith, f)
]
find_param-replace j (suc n) (p ∷ ps) (suc i) q e h = elim (Option-cases (find_param j n ps)) [
  | inl f ↦ ground (arith, f, find_param-replace j n ps i q f h)
  | inr (k, f) ↦ ground (arith, f)
]

Distinct-replace :
    (n : ℕ) (ps : List CalParam) (i : ℕ) (q : CalParam)
    → Distinct n ps
    → find_param q.id n ps ≡ none
    → Distinct n (set ps i q)
unfolding find_param
Distinct-replace zero ps i q d e = tt
Distinct-replace (suc n) [] i q d e = tt
Distinct-replace (suc n) (p ∷ ps) zero q d e = elim (Option-cases (find_param q.id n ps)) [
  | inr (k, f) ↦ ground (arith, f)
  | inl f ↦ (f, d.1)
]
Distinct-replace (suc n) (p ∷ ps) (suc i) q d e = elim (Option-cases (find_param q.id n ps)) [
  | inr (k, f) ↦ ground (arith, f)
  | inl f ↦
      (find_param-replace p.id n ps i q d.0 (ground (arith, e, f)), Distinct-replace n ps i q d.1 f)
]

not_last :
    (j n : ℕ) (ps : List CalParam)
    → n < length ps
    → find_param j (suc n) ps ≡ none
    → (j == (get_or ps n no_param).id) ≡ false
unfolding find_param
not_last j n [] h e = elim h [ ]
not_last j zero (p ∷ ps) h e = ground arith
not_last j (suc n) (p ∷ ps) h e = elim (Option-cases (find_param j (suc n) ps)) [
  | inl f ↦ not_last j n ps (omega arith) f
  | inr (k, f) ↦ absurd (ground (arith, f))
]

fewer : (j n : ℕ) (ps : List CalParam) → find_param j (suc n) ps ≡ none → find_param j n ps ≡ none
unfolding find_param
fewer j zero ps e = refl
fewer j (suc n) [] e = refl
fewer j (suc n) (p ∷ ps) e = elim (Option-cases (find_param j (suc n) ps)) [
  | inl f ↦ ground (arith, f, fewer j n ps f)
  | inr (k, f) ↦ absurd (ground (arith, f))
]

-- The last of n + 1 parameters is not among the others.
Distinct-last :
    (n : ℕ) (ps : List CalParam)
    → n < length ps
    → Distinct (suc n) ps
    → (find_param (get_or ps n no_param).id n ps ≡ none) × Distinct n ps
unfolding find_param
Distinct-last n [] h d = elim h [ ]
Distinct-last zero (p ∷ ps) h d = (refl, tt)
Distinct-last (suc n) (p ∷ ps) h d =
    let earlier = Distinct-last n ps (omega arith) d.1 in
    let other = not_last p.id n ps (omega arith) d.0 in
    (ground (arith, earlier, other), ground (arith, earlier, fewer p.id n ps d.0))

find_last :
    (id n : ℕ) (ps : List CalParam) (i : ℕ)
    → n < length ps
    → find_param id (suc n) ps ≡ some i
    → (find_param id n ps ≡ some i)
      ⊎ ((i ≡ n) × (find_param id n ps ≡ none) × (id ≡ (get_or ps n no_param).id))
unfolding find_param
find_last id n [] i h e = elim h [ ]
find_last id zero (p ∷ ps) i h e = inr (ground (arith, e), refl, ground (arith, e))
find_last id (suc n) (p ∷ ps) i h e = elim (Option-cases (find_param id (suc n) ps)) [
  | inl f ↦ ground (arith, f)
  | inr (k, f) ↦ ground (arith, f, find_last id n ps k (omega arith) f)
]

module _ (m : ℕ) (ps : List CalParam) (fits : m < length ps) (d : Distinct (suc m) ps) where
  abbrev last : CalParam
  last = get_or ps m no_param

  value_of_with_last :
      (j : ℕ) → value_of j (suc m) ps ≡ (if j == last.id then some last.value else value_of j m ps)
  value_of_with_last j =
      let q = absent last.id m ps (Distinct-last m ps fits d).0 in
      elim (Option-cases (value_of j m ps)) [
        | inl e ↦ value_of_last j m ps fits e ∙ rw e refl
        | inr (x, e) ↦ value_of_first j m x ps e ∙ ground (arith, e, q)
      ]

  value_of-remove :
      (id j i : ℕ)
      → find_param id (suc m) ps ≡ some i
      → value_of j m (set ps i last) ≡ (if id == j then none else value_of j (suc m) ps)
  value_of-remove id j i e =
      let (q, rest) = Distinct-last m ps fits d in
      elim (find_last id m ps i fits e) [
        | inl f ↦
            value_of-replace id j m ps i last rest f (absent last.id m ps q)
            ∙ rw (value_of_with_last j) (ground (arith, f, q))
        | inr (same, f, g) ↦
            ap (λ k. value_of j m (set ps k last)) same
            ∙ value_of-set_behind j m ps m last (omega arith)
            ∙ rw (value_of_with_last j) (ground (arith, g, absent id m ps f))
      ]

  Distinct-remove : (id i : ℕ) → find_param id (suc m) ps ≡ some i → Distinct m (set ps i last)
  Distinct-remove id i e =
      let (q, rest) = Distinct-last m ps fits d in Distinct-replace m ps i last rest q

-- Removing a parameter fails only if it is not there. Otherwise it is gone, the others keep their
-- values, and the table stays one in which no parameter stands twice.
pub storage_remove_calibration_parameter_lem :
    (id : ℕ) (d : CalData)
    → IsTable d
    → ((storage_remove_calibration_parameter id d ≡ none)
        × (storage_get_calibration_parameter id d ≡ none))
      ⊎ ((d' : CalData) × (storage_remove_calibration_parameter id d ≡ some d')
          × IsTable d'
          × ((j : ℕ)
              → storage_get_calibration_parameter j d'
                ≡ (if id == j then none else storage_get_calibration_parameter j d)))
unfolding storage_remove_calibration_parameter
storage_remove_calibration_parameter_lem id d t =
    elim (Option-cases (find_param id d.param_count d.params)) [
      | inl e ↦ inl (ground (arith, e), get_lem id d ∙ absent id d.param_count d.params e)
      | inr (i, e) ↦
          let m = d.param_count - 1 in
          let q = get_or d.params m no_param in
          let d' = record d { params = set d.params i q; param_count = m } in
          let more : d.param_count ≡ suc m =
            omega (arith, found-lt id d.param_count d.params i e) in
          let fits : m < length d.params = omega (arith, t.room, t.within, more) in
          let distinct = subst (λ k. Distinct k d.params) more t.distinct in
          let found = subst (λ k. find_param id k d.params ≡ some i) more e in
          inr (
            d',
            ground (arith, e),
            record {
              room = length-set d.params i q ∙ t.room;
              within = omega (arith, t.within);
              distinct = Distinct-remove m d.params fits distinct id i found;
            },
            λ j.
                get_lem j d'
                ∙ value_of-remove m d.params fits distinct id j i found
                ∙ ap (λ v. if id == j then none else v)
                    (ap (λ k. value_of j k d.params) (sym more) ∙ sym (get_lem j d)),
          )
    ]
