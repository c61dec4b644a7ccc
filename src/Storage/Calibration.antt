-- ===== src/Storage/Calibration.antt =====
-- The calibration parameters of dev/storage-cal.c and include/storage.h. The file system is a
-- parameter: dev/sdbfs.c over a library. The array `params` has twelve entries; what a wrong
-- param_count would read behind it is left out. CONFIG without debug output.
pub mod Table
pub mod File
use wrpc_sw.Prelude.{
  ℕ, zero, suc, ◌+◌, ◌-◌, ◌*◌, ◌/◌, ◌%◌, ◌^◌, ◌≡◌, ◌&&◌, Bool, true, false, not, Option, none, some,
  List, [], ◌∷◌, ◌++◌, length, get_or, set, leb, ◌==◌, if◌then◌else◌,
}
use wrpc_sw.Prelude.Int.{ℤ, pos, negsuc}

abbrev pub cal_max_params : ℕ
cal_max_params = 12

abbrev pub cal_file_magic : ℕ
cal_file_magic = 0xcafebabe

pub record CalParam : Type 0 where
  pub id : ℕ
  pub value : ℕ

-- wrc_cal_data_t
pub record CalData : Type 0 where
  pub magic : ℕ
  pub param_count : ℕ
  pub checksum : ℕ
  pub params : List CalParam

abbrev pub no_param : CalParam
no_param = record { id = 0; value = 0 }

unfoldable pub sum_params : ℕ → List CalParam → ℕ
sum_params zero ps = 0
sum_params (suc n) [] = 0
sum_params (suc n) (p ∷ ps) = p.id + p.value + sum_params n ps

unfoldable pub calc_checksum : CalData → ℕ
calc_checksum d = (d.magic + d.param_count + sum_params d.param_count d.params) % 2 ^ 32

-- The place of the parameter among the first n.
unfoldable pub find_param : ℕ → ℕ → List CalParam → Option ℕ
find_param id zero ps = none
find_param id (suc n) [] = none
find_param id (suc n) (p ∷ ps) =
    if id == p.id then some 0 else elim (find_param id n ps) [ none ↦ none | some i ↦ some (suc i) ]

unfoldable pub storage_get_calibration_parameter : ℕ → CalData → Option ℕ
unfolding find_param
storage_get_calibration_parameter id d = elim (find_param id d.param_count d.params) [
  | none ↦ none
  | some i ↦ some (get_or d.params i no_param).value
]

abbrev with_value : CalParam → ℕ → CalParam
with_value p v = record p { value = v }

-- none if the parameter is new and there is no room.
unfoldable pub storage_set_calibration_parameter : ℕ → ℕ → CalData → Option CalData
unfolding find_param
storage_set_calibration_parameter id v d = elim (find_param id d.param_count d.params) [
  | some i ↦ some (record d { params = set d.params i (with_value (get_or d.params i no_param) v) })
  | none ↦
      if leb cal_max_params d.param_count
      then none
      else some (record d {
        params = set d.params d.param_count (record { id = id; value = v });
        param_count = d.param_count + 1;
      })
]

-- The last parameter takes the place of the one removed; none if there is no such parameter.
unfoldable pub storage_remove_calibration_parameter : ℕ → CalData → Option CalData
unfolding find_param
storage_remove_calibration_parameter id d = elim (find_param id d.param_count d.params) [
  | none ↦ none
  | some i ↦ some (record d {
    params = set d.params i (get_or d.params (d.param_count - 1) no_param);
    param_count = d.param_count - 1;
  })
]

-- The file, in network order.
unfoldable pub htonl_mem : List ℕ → List ℕ
htonl_mem [] = []
htonl_mem (w ∷ ws) =
    w / 2 ^ 24 % 2 ^ 8 ∷ w / 2 ^ 16 % 2 ^ 8 ∷ w / 2 ^ 8 % 2 ^ 8 ∷ w % 2 ^ 8 ∷ htonl_mem ws

unfoldable pub ntohl_mem : List ℕ → List ℕ
ntohl_mem (a ∷ b ∷ c ∷ d ∷ bs) = (a * 2 ^ 24 + b * 2 ^ 16 + c * 2 ^ 8 + d) ∷ ntohl_mem bs
ntohl_mem bs = []

-- The parameters as they lie in memory, and back.
unfoldable pub param_words : List CalParam → List ℕ
param_words [] = []
param_words (p ∷ ps) = p.id ∷ p.value ∷ param_words ps

unfoldable pub words_params : List ℕ → List CalParam
words_params (a ∷ b ∷ ws) = record { id = a; value = b } ∷ words_params ws
words_params ws = []

unfoldable pub cal_words : CalData → List ℕ
unfolding param_words
cal_words d = d.magic ∷ d.param_count ∷ d.checksum ∷ param_words d.params

unfoldable pub words_cal : List ℕ → CalData
unfolding words_params
words_cal (m ∷ n ∷ c ∷ ws) = record {
  magic = m;
  param_count = n;
  checksum = c;
  params = words_params ws;
}
words_cal ws = record { magic = 0; param_count = 0; checksum = 0; params = [] }

-- sizeof(wrc_cal_data_t)
abbrev pub cal_size : ℕ
cal_size = 108

-- The file that SDB_DEV_CALIB names: whether it opens, its erasure, a write and a read from its start.
-- A write tells whether all was written, a read gives nothing if the file is too short. What was
-- written whole to the erased file is read back.
pub record Sdbfs : Type 1 where
  pub Store : Type 0
  pub opens : Store → Bool
  pub ferase : Store → Store
  pub fwrite : Store → List ℕ → Bool × Store
  pub fread : Store → ℕ → Option (List ℕ)
  pub opens_again :
      (s : Store) (bs : List ℕ) → opens s ≡ true → opens (fwrite (ferase s) bs).1 ≡ true
  pub reads_back :
      (s : Store) (bs : List ℕ)
      → (fwrite (ferase s) bs).0 ≡ true
      → fread (fwrite (ferase s) bs).1 (length bs) ≡ some bs

abbrev no_params : CalData → CalData
no_params d = record d { param_count = 0 }

-- The file's content, if its magic number and its checksum are right.
unfoldable pub check_cal : CalData → ℤ × CalData
unfolding calc_checksum
check_cal d =
    if not (d.magic == cal_file_magic)
    then (negsuc 0, no_params d)
    else if not (d.checksum == calc_checksum d)
    then (negsuc 0, no_params d)
    else (pos 0, d)

-- With the checksum and the magic number set.
unfoldable pub sealed : CalData → CalData
unfolding calc_checksum
sealed d = let d' = record d { magic = cal_file_magic } in record d' { checksum = calc_checksum d' }

module _ (fs : Sdbfs) where
  open fs use {Store, opens, ferase, fwrite, fread}

  unfoldable pub storage_load_calibration : CalData → Store → ℤ × CalData
  unfolding check_cal words_cal ntohl_mem
  storage_load_calibration d s =
      if not (opens s) then (negsuc 0, no_params d) else elim (fread s cal_size) [
        | none ↦ (negsuc 0, no_params d)
        | some bs ↦ check_cal (words_cal (ntohl_mem bs))
      ]

  -- The result is 0 also if the write fails.
  unfoldable pub storage_save_calibration : CalData → Store → ℤ × (CalData × Store)
  unfolding sealed cal_words htonl_mem
  storage_save_calibration d s =
      if not (opens s)
      then (negsuc 0, (d, s))
      else (pos 0, (sealed d, (fwrite (ferase s) (htonl_mem (cal_words (sealed d)))).1))

  unfoldable pub storage_set_calibration_parameter_and_save :
      ℕ → ℕ → CalData → Store → ℤ × (CalData × Store)
  unfolding storage_set_calibration_parameter storage_save_calibration
  storage_set_calibration_parameter_and_save id v d s =
      elim (storage_set_calibration_parameter id v d) [
        | none ↦ (negsuc 0, (d, s))
        | some d' ↦ storage_save_calibration d' s
      ]
