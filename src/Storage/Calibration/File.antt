-- ===== src/Storage/Calibration/File.antt =====
-- The calibration file: what storage_save_calibration writes is what storage_load_calibration reads.
use mathlib.Core.Path.{subst}
use wrpc_sw.Prelude.{
  ℕ, zero, suc, ◌+◌, ◌*◌, ◌/◌, ◌%◌, ◌^◌, ◌≤◌, ◌<◌, ◌≡◌, refl, sym, ap, ◌∙◌, true, Option,
  Option-cases, Bool-cases, inl, inr, ◌⊎◌, leb, none, some, List, [], ◌∷◌, length, get_or, set,
  ◌==◌, if◌then◌else◌, arith,
}
use wrpc_sw.Prelude.Int.{ℤ, pos, negsuc}
use wrpc_sw.Storage.Calibration.{
  CalParam, CalData, no_param, with_value, cal_max_params, cal_size, Sdbfs, sealed, htonl_mem,
  ntohl_mem, param_words, words_params, cal_words, words_cal, calc_checksum, check_cal, find_param,
  storage_get_calibration_parameter, storage_set_calibration_parameter, storage_save_calibration,
  storage_load_calibration, storage_set_calibration_parameter_and_save,
}
use wrpc_sw.Storage.Calibration.Table.{IsTable, storage_set_calibration_parameter_lem}

abbrev AllWords : List ℕ → Type 0
AllWords [] = Unit
AllWords (w ∷ ws) = (w < 2 ^ 32) × AllWords ws

-- The ids and the values are 32-bit numbers.
abbrev pub AllParams : List CalParam → Type 0
AllParams [] = Unit
AllParams (p ∷ ps) = (p.id < 2 ^ 32) × (p.value < 2 ^ 32) × AllParams ps

ntohl_mem-htonl_mem : (ws : List ℕ) → AllWords ws → ntohl_mem (htonl_mem ws) ≡ ws
unfolding ntohl_mem htonl_mem
ntohl_mem-htonl_mem [] h = refl
ntohl_mem-htonl_mem (w ∷ ws) h =
    let whole : w / 2 ^ 24 % 2 ^ 8 * 2 ^ 24
          + w / 2 ^ 16 % 2 ^ 8 * 2 ^ 16
          + w / 2 ^ 8 % 2 ^ 8 * 2 ^ 8
          + w % 2 ^ 8
        ≡ w =
      omega (arith, h.0) in
    rw (whole, ntohl_mem-htonl_mem ws h.1) refl

length-htonl_mem : (ws : List ℕ) → length (htonl_mem ws) ≡ 4 * length ws
unfolding htonl_mem
length-htonl_mem [] = refl
length-htonl_mem (w ∷ ws) = omega (arith, length-htonl_mem ws)

words_params-param_words : (ps : List CalParam) → words_params (param_words ps) ≡ ps
unfolding words_params param_words
words_params-param_words [] = refl
words_params-param_words (p ∷ ps) = ap (λ t. p ∷ t) (words_params-param_words ps)

length-param_words : (ps : List CalParam) → length (param_words ps) ≡ 2 * length ps
unfolding param_words
length-param_words [] = refl
length-param_words (p ∷ ps) = omega (arith, length-param_words ps)

param_words-AllWords : (ps : List CalParam) → AllParams ps → AllWords (param_words ps)
unfolding param_words
param_words-AllWords [] h = tt
param_words-AllWords (p ∷ ps) h = (h.0, (h.1, param_words-AllWords ps h.2))

module _ (d : CalData) (room : length d.params ≡ cal_max_params)
    (within : d.param_count ≤ cal_max_params) (small : AllParams d.params) where
  sealed-AllWords : AllWords (cal_words (sealed d))
  unfolding cal_words sealed calc_checksum
  sealed-AllWords =
      (omega arith, (omega (arith, within), (omega arith, param_words-AllWords d.params small)))

  written : length (htonl_mem (cal_words (sealed d))) ≡ cal_size
  unfolding cal_words sealed
  written =
      length-htonl_mem (cal_words (sealed d)) ∙ omega (arith, length-param_words d.params, room)

  words_cal-sealed : words_cal (cal_words (sealed d)) ≡ sealed d
  unfolding words_cal cal_words sealed
  words_cal-sealed =
      ap
        (λ ps. record {
          magic = (sealed d).magic;
          param_count = (sealed d).param_count;
          checksum = (sealed d).checksum;
          params = ps;
        })
        (words_params-param_words d.params)

  read : words_cal (ntohl_mem (htonl_mem (cal_words (sealed d)))) ≡ sealed d
  read =
      ap words_cal (ntohl_mem-htonl_mem (cal_words (sealed d)) sealed-AllWords) ∙ words_cal-sealed

  passes : check_cal (sealed d) ≡ (pos 0, sealed d)
  unfolding check_cal sealed calc_checksum
  passes = ground arith

  -- What was saved is loaded, whatever was in memory before.
  load-save :
      (fs : Sdbfs) (s : fs.Store) (before : CalData)
      → fs.opens s ≡ true
      → (fs.fwrite (fs.ferase s) (htonl_mem (cal_words (sealed d)))).0 ≡ true
      → storage_load_calibration fs before (storage_save_calibration fs d s).1.1 ≡ (pos 0, sealed d)
  unfolding storage_load_calibration storage_save_calibration
  load-save fs s before o w =
      let bs = htonl_mem (cal_words (sealed d)) in
      let back : fs.fread (fs.fwrite (fs.ferase s) bs).1 cal_size ≡ some bs =
        ap (fs.fread (fs.fwrite (fs.ferase s) bs).1) (sym written) ∙ fs.reads_back s bs w in
      rw (o, fs.opens_again s bs o, back) (ap check_cal read ∙ passes)

AllParams-set :
    (ps : List CalParam) (i : ℕ) (q : CalParam)
    → AllParams ps
    → (q.id < 2 ^ 32) × (q.value < 2 ^ 32)
    → AllParams (set ps i q)
AllParams-set [] i q a h = tt
AllParams-set (p ∷ ps) zero q a h = (h.0, h.1, a.2)
AllParams-set (p ∷ ps) (suc i) q a h = (a.0, a.1, AllParams-set ps i q a.2 h)

id_small : (ps : List CalParam) (i : ℕ) → AllParams ps → (get_or ps i no_param).id < 2 ^ 32
id_small [] i a = omega arith
id_small (p ∷ ps) zero a = a.0
id_small (p ∷ ps) (suc i) a = id_small ps i a.2

set-AllParams :
    (id v : ℕ) (d d' : CalData)
    → AllParams d.params
    → id < 2 ^ 32
    → v < 2 ^ 32
    → storage_set_calibration_parameter id v d ≡ some d'
    → AllParams d'.params
unfolding storage_set_calibration_parameter
set-AllParams id v d d' a h k e = elim (Option-cases (find_param id d.param_count d.params)) [
  | inr (i, f) ↦
      let q : CalParam = with_value (get_or d.params i no_param) v in
      let same : record d { params = set d.params i q } ≡ d' = ground (arith, e, f) in
      subst (λ (x : CalData). AllParams x.params) same
        (AllParams-set d.params i q a (id_small d.params i a, k))
  | inl f ↦ elim (Bool-cases (leb cal_max_params d.param_count)) [
    | inl full ↦ absurd (ground (arith, e, f, full))
    | inr free ↦
        let q : CalParam = record { id = id; value = v } in
        let same : record d {
          params = set d.params d.param_count q;
          param_count = d.param_count + 1;
        }
            ≡ d' =
          ground (arith, e, f, free) in
        subst (λ (x : CalData). AllParams x.params) same
          (AllParams-set d.params d.param_count q a (h, k))
  ]
]

get_sealed :
    (j : ℕ) (d : CalData)
    → storage_get_calibration_parameter j (sealed d) ≡ storage_get_calibration_parameter j d
unfolding storage_get_calibration_parameter sealed
get_sealed j d = refl

abbrev saving : (fs : Sdbfs) → CalData → fs.Store → Option CalData → ℤ × (CalData × fs.Store)
saving fs d s none = (negsuc 0, (d, s))
saving fs d s (some d') = storage_save_calibration fs d' s

saved :
    (fs : Sdbfs) (d : CalData) (s : fs.Store)
    → fs.opens s ≡ true
    → (storage_save_calibration fs d s).0 ≡ pos 0
unfolding storage_save_calibration
saved fs d s o = ground (arith, o)

module _ (fs : Sdbfs) (id v : ℕ) (d : CalData) (s : fs.Store) where
  refused :
      storage_set_calibration_parameter id v d ≡ none
      → storage_set_calibration_parameter_and_save fs id v d s ≡ (negsuc 0, (d, s))
  unfolding storage_set_calibration_parameter_and_save
  refused e = ap (saving fs d s) e

  accepted :
      (d' : CalData)
      → storage_set_calibration_parameter id v d ≡ some d'
      → storage_set_calibration_parameter_and_save fs id v d s ≡ storage_save_calibration fs d' s
  unfolding storage_set_calibration_parameter_and_save
  accepted d' e = ap (saving fs d s) e

-- In a table of 32-bit parameters a parameter is set and saved: if the file opens and the 108 bytes of a
-- table are written to it whole once it is erased, a later load, whatever is in memory then, gives the parameter its value and all others the values
-- they had; only a new parameter for a full table is refused, with -1.
pub storage_set_calibration_parameter_and_save-load :
    (fs : Sdbfs) (id v : ℕ) (d before : CalData) (s : fs.Store)
    → IsTable d
    → AllParams d.params
    → id < 2 ^ 32
    → v < 2 ^ 32
    → fs.opens s ≡ true
    → ((bs : List ℕ) → length bs ≡ cal_size → (fs.fwrite (fs.ferase s) bs).0 ≡ true)
    → let (result, (_, s')) = storage_set_calibration_parameter_and_save fs id v d s in
      ((result ≡ negsuc 0)
        × (storage_get_calibration_parameter id d ≡ none)
        × (d.param_count ≡ cal_max_params))
      ⊎ ((result ≡ pos 0)
          × ((storage_load_calibration fs before s').0 ≡ pos 0)
          × ((j : ℕ)
              → storage_get_calibration_parameter j (storage_load_calibration fs before s').1
                ≡ (if id == j then some v else storage_get_calibration_parameter j d)))
storage_set_calibration_parameter_and_save-load fs id v d before s t a h k o w =
    elim (storage_set_calibration_parameter_lem id v d t) [
      | inl (e, new, full) ↦ inl (ap (λ r. r.0) (refused fs id v d s e), new, full)
      | inr (d', e, t', values) ↦
          let a' = set-AllParams id v d d' a h k e in
          let stored = ap (λ r. r.1.1) (accepted fs id v d s d' e) in
          let back =
            ap (storage_load_calibration fs before) stored
            ∙ load-save d' t'.room t'.within a' fs s before o
                (w (htonl_mem (cal_words (sealed d'))) (written d' t'.room t'.within a')) in
          inr (
            ap (λ r. r.0) (accepted fs id v d s d' e) ∙ saved fs d' s o,
            ap (λ r. r.0) back,
            λ j.
                ap (λ r. storage_get_calibration_parameter j r.1) back ∙ get_sealed j d' ∙ values j,
          )
    ]
