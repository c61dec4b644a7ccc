-- ===== src/Storage/Calibration/Table.antt =====
-- The calibration parameters as a finite map: what storage_set_calibration_parameter and
-- storage_remove_calibration_parameter of dev/storage-cal.c do to what is read.
pub mod Removal
use mathlib.Core.Path.{subst}
use wrpc_sw.Prelude.{
  ℕ, zero, suc, ◌+◌, ◌-◌, ◌≤◌, ◌<◌, ◌≡◌, refl, sym, ap, ◌∙◌, ◌⊎◌, inl, inr, Option, none, some,
  List, false, [], ◌∷◌, length, get_or, set, leb, ◌==◌, if◌then◌else◌, arith, length-set,
  Option-cases, Bool-cases,
}
use wrpc_sw.Storage.Calibration.{
  CalParam, CalData, no_param, with_value, cal_max_params, find_param,
  storage_get_calibration_parameter, storage_set_calibration_parameter,
  storage_remove_calibration_parameter,
}

-- The value of the parameter among the first n.
pub value_of : ℕ → ℕ → List CalParam → Option ℕ
value_of id zero ps = none
value_of id (suc n) [] = none
value_of id (suc n) (p ∷ ps) = if id == p.id then some p.value else value_of id n ps

-- No parameter stands twice among the first n.
abbrev pub Distinct : ℕ → List CalParam → Type 0
Distinct zero ps = Unit
Distinct (suc n) [] = Unit
Distinct (suc n) (p ∷ ps) = (find_param p.id n ps ≡ none) × Distinct n ps

pub record IsTable (d : CalData) : Type 0 where
  pub room : length d.params ≡ cal_max_params
  pub within : d.param_count ≤ cal_max_params
  pub distinct : Distinct d.param_count d.params

abbrev read_at : List CalParam → Option ℕ → Option ℕ
read_at ps none = none
read_at ps (some i) = some (get_or ps i no_param).value

read_found : (id n : ℕ) (ps : List CalParam) → read_at ps (find_param id n ps) ≡ value_of id n ps
unfolding find_param value_of
read_found id zero ps = refl
read_found id (suc n) [] = refl
read_found id (suc n) (p ∷ ps) = ground (arith, read_found id n ps)

pub get_lem :
    (id : ℕ) (d : CalData)
    → storage_get_calibration_parameter id d ≡ value_of id d.param_count d.params
unfolding storage_get_calibration_parameter
get_lem id d = ground (arith, read_found id d.param_count d.params)

pub absent : (id n : ℕ) (ps : List CalParam) → find_param id n ps ≡ none → value_of id n ps ≡ none
absent id n ps e = ground (arith, read_found id n ps, e)

-- The places found lie among the first n.
pub found-lt :
    (id n : ℕ) (ps : List CalParam) (i : ℕ)
    → find_param id n ps ≡ some i
    → (i < n) × (i < length ps) × ((get_or ps i no_param).id ≡ id)
unfolding find_param
found-lt id zero ps i e = absurd (cc)
found-lt id (suc n) [] i e = absurd (cc)
found-lt id (suc n) (p ∷ ps) i e = elim (Option-cases (find_param id n ps)) [
  | inl f ↦ ground (arith, f)
  | inr (k, f) ↦ ground (arith, f, found-lt id n ps k f)
]

value_of-write :
    (id v j n : ℕ) (ps : List CalParam) (i : ℕ)
    → find_param id n ps ≡ some i
    → value_of j n (set ps i (with_value (get_or ps i no_param) v))
      ≡ (if id == j then some v else value_of j n ps)
unfolding find_param value_of
value_of-write id v j zero ps i e = absurd (cc)
value_of-write id v j (suc n) [] i e = absurd (cc)
value_of-write id v j (suc n) (p ∷ ps) i e = elim (Bool-cases (id == p.id)) [
  | inl t ↦ ground (arith, t)
  | inr t ↦ elim (Option-cases (find_param id n ps)) [
    | inl f ↦ ground (arith, f)
    | inr (k, f) ↦ ground (arith, f, value_of-write id v j n ps k f)
  ]
]

value_of-append :
    (id v j n : ℕ) (ps : List CalParam)
    → find_param id n ps ≡ none
    → n < length ps
    → value_of j (suc n) (set ps n (record { id = id; value = v }))
      ≡ (if id == j then some v else value_of j n ps)
unfolding find_param value_of
value_of-append id v j n [] e h = elim h [ ]
value_of-append id v j zero (p ∷ ps) e h = ground arith
value_of-append id v j (suc n) (p ∷ ps) e h = elim (Option-cases (find_param id n ps)) [
  | inl f ↦ ground (arith, f, value_of-append id v j n ps f)
  | inr (k, f) ↦ ground (arith, f)
]

-- Writing a value leaves the ids as they are.
find_param-write :
    (v j n : ℕ) (ps : List CalParam) (i : ℕ)
    → find_param j n (set ps i (with_value (get_or ps i no_param) v)) ≡ find_param j n ps
unfolding find_param
find_param-write v j zero ps i = refl
find_param-write v j (suc n) [] i = refl
find_param-write v j (suc n) (p ∷ ps) zero = refl
find_param-write v j (suc n) (p ∷ ps) (suc i) = ground (arith, find_param-write v j n ps i)

Distinct-write :
    (v n : ℕ) (ps : List CalParam) (i : ℕ)
    → Distinct n ps
    → Distinct n (set ps i (with_value (get_or ps i no_param) v))
Distinct-write v zero ps i d = tt
Distinct-write v (suc n) [] i d = tt
Distinct-write v (suc n) (p ∷ ps) zero d = d
Distinct-write v (suc n) (p ∷ ps) (suc i) d =
    (find_param-write v p.id n ps i ∙ d.0, Distinct-write v n ps i d.1)

find_param-append :
    (q : CalParam) (j n : ℕ) (ps : List CalParam)
    → find_param j n ps ≡ none
    → j == q.id ≡ false
    → find_param j (suc n) (set ps n q) ≡ none
unfolding find_param
find_param-append q j n [] e h = refl
find_param-append q j zero (p ∷ ps) e h = ground arith
find_param-append q j (suc n) (p ∷ ps) e h = elim (Option-cases (find_param j n ps)) [
  | inl f ↦ ground (arith, f, find_param-append q j n ps f h)
  | inr (k, f) ↦ ground (arith, f)
]

Distinct-append :
    (q : CalParam) (n : ℕ) (ps : List CalParam)
    → Distinct n ps
    → find_param q.id n ps ≡ none
    → n < length ps
    → Distinct (suc n) (set ps n q)
unfolding find_param
Distinct-append q n [] d e h = elim h [ ]
Distinct-append q zero (p ∷ ps) d e h = (refl, tt)
Distinct-append q (suc n) (p ∷ ps) d e h = elim (Option-cases (find_param q.id n ps)) [
  | inl f ↦ (
    find_param-append q p.id n ps d.0 (ground (arith, e, f)),
    Distinct-append q n ps d.1 f (omega arith),
  )
  | inr (k, f) ↦ ground (arith, f)
]

set_found :
    (id v : ℕ) (d : CalData) (i : ℕ)
    → find_param id d.param_count d.params ≡ some i
    → storage_set_calibration_parameter id v d
      ≡ some (record d { params = set d.params i (with_value (get_or d.params i no_param) v) })
unfolding storage_set_calibration_parameter
set_found id v d i e = ground (arith, e)

-- A parameter is refused only if it is new and twelve others are there. Otherwise it has its value
-- from then on, all others keep theirs, and the table stays one in which no parameter stands twice.
pub storage_set_calibration_parameter_lem :
    (id v : ℕ) (d : CalData)
    → IsTable d
    → ((storage_set_calibration_parameter id v d ≡ none)
        × (storage_get_calibration_parameter id d ≡ none)
        × (d.param_count ≡ cal_max_params))
      ⊎ ((d' : CalData) × (storage_set_calibration_parameter id v d ≡ some d')
          × IsTable d'
          × ((j : ℕ)
              → storage_get_calibration_parameter j d'
                ≡ (if id == j then some v else storage_get_calibration_parameter j d)))
unfolding storage_set_calibration_parameter
storage_set_calibration_parameter_lem id v d t =
    elim (Option-cases (find_param id d.param_count d.params)) [
      | inr (i, e) ↦
          let d' = record d {
            params = set d.params i (with_value (get_or d.params i no_param) v);
          } in
          inr (
            d',
            set_found id v d i e,
            record {
              room = length-set d.params i (with_value (get_or d.params i no_param) v) ∙ t.room;
              within = t.within;
              distinct = Distinct-write v d.param_count d.params i t.distinct;
            },
            λ j. get_lem j d' ∙ rw (get_lem j d) (value_of-write id v j d.param_count d.params i e),
          )
      | inl e ↦ elim (Bool-cases (leb cal_max_params d.param_count)) [
        | inl full ↦ inl (
          ground (arith, e, full),
          get_lem id d ∙ absent id d.param_count d.params e,
          ground (arith, t.within),
        )
        | inr free ↦
            let q : CalParam = record { id = id; value = v } in
            let d' = record d {
              params = set d.params d.param_count q;
              param_count = d.param_count + 1;
            } in
            let fits : d.param_count < length d.params = ground (arith, t.room) in
            let more : d.param_count + 1 ≡ suc d.param_count = omega arith in
            inr (
              d',
              ground (arith, e, free),
              record {
                room = length-set d.params d.param_count q ∙ t.room;
                within = ground arith;
                distinct = rw more (Distinct-append q d.param_count d.params t.distinct e fits);
              },
              λ j.
                  get_lem j d'
                  ∙ rw (more, get_lem j d) (value_of-append id v j d.param_count d.params e fits),
            )
      ]
    ]
