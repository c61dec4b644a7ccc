-- ===== src/Storage/Sfp.antt =====
-- The SFP database in the flash: dev/storage-sfp.c. The file is a parameter: dev/sdbfs.c over a
-- library and a device. A plain char is unsigned, as on both of the boards' processors.
pub mod Contents
pub mod Add
pub mod Entries
pub mod Lookup
pub mod Search
pub mod Update
use wrpc_sw.Prelude.{
  ℕ, zero, suc, ◌+◌, ◌*◌, ◌/◌, ◌%◌, ◌^◌, ◌≤◌, ◌<◌, ◌≡◌, Bool, true, false, not, ◌&&◌, Option, none,
  some, List, [], ◌∷◌, ◌++◌, take, drop, length, get_or, replicate, set, leb, ltb, ◌==◌,
  if◌then◌else◌,
}
use wrpc_sw.Prelude.Int.{ℤ, pos, negsuc}

-- SFPS_MAX, SFP_PN_LEN and the bytes of a struct s_sfpinfo.
abbrev pub sfps_max : ℕ
sfps_max = 4

abbrev pub sfp_pn_len : ℕ
sfp_pn_len = 16

abbrev pub sfp_size : ℕ
sfp_size = 33

-- The signed numbers are 64-bit and 32-bit words here: the database only moves them.
pub record SfpInfo : Type 0 where
  pub pn : List ℕ
  pub alpha : ℕ
  pub d_tx : ℕ
  pub d_rx : ℕ
  pub chksum : ℕ

-- n bytes of a word, as the network has them.
unfoldable pub hton : ℕ → ℕ → List ℕ
hton zero w = []
hton (suc n) w = hton n (w / 2 ^ 8) ++ (w % 2 ^ 8 ∷ [])

unfoldable pub ntoh : ℕ → List ℕ → ℕ
ntoh w [] = w
ntoh w (b ∷ bs) = ntoh (w * 2 ^ 8 + b) bs

unfoldable pub sum_bytes : List ℕ → ℕ
sum_bytes [] = 0
sum_bytes (b ∷ bs) = b + sum_bytes bs

-- An entry without its checksum, in network order, and the entry.
unfoldable pub summed : SfpInfo → List ℕ
unfolding hton
summed sfp = sfp.pn ++ (hton 8 sfp.alpha ++ (hton 4 sfp.d_tx ++ hton 4 sfp.d_rx))

unfoldable pub packed : SfpInfo → List ℕ
unfolding summed sum_bytes
packed sfp = summed sfp ++ (sum_bytes (summed sfp) % 2 ^ 8 ∷ [])

unfoldable pub unpacked : List ℕ → SfpInfo
unfolding ntoh
unpacked bs = record {
  pn = take 16 bs;
  alpha = ntoh 0 (take 8 (drop 16 bs));
  d_tx = ntoh 0 (take 4 (drop 24 bs));
  d_rx = ntoh 0 (take 4 (drop 28 bs));
  chksum = get_or bs 32 0;
}

unfoldable pub sfp_valid : ℕ → List ℕ → Bool
sfp_valid zero pn = true
sfp_valid (suc n) [] = true
sfp_valid (suc n) (b ∷ bs) = if b == 0xff then false else sfp_valid n bs

-- strncmp gives 0
unfoldable pub strncmp_same : ℕ → List ℕ → List ℕ → Bool
strncmp_same zero xs ys = true
strncmp_same (suc n) [] ys = true
strncmp_same (suc n) (x ∷ xs) [] = true
strncmp_same (suc n) (x ∷ xs) (y ∷ ys) =
    let rest = strncmp_same n xs ys in if x == y then (if x == 0 then true else rest) else false

-- The file that SDB_DEV_SFP names: whether it opens, its length f_len, a read, which ends at the end
-- of the file, a write, which tells whether all was written, and the erasure, which tells whether all
-- was erased. What is written inside of the file is read back, and does not change other places.
pub record SfpFile : Type 1 where
  pub Store : Type 0
  pub opens : Store → Bool
  pub size : ℕ
  pub fread : Store → ℕ → ℕ → List ℕ
  pub fwrite : Store → ℕ → List ℕ → Bool × Store
  pub ferase : Store → Bool × Store
  pub write_opens : (s : Store) (i : ℕ) (bs : List ℕ) → opens (fwrite s i bs).1 ≡ opens s
  pub writes : (s : Store) (i : ℕ) (bs : List ℕ) → i + length bs ≤ size → (fwrite s i bs).0 ≡ true
  pub reads_back :
      (s : Store) (i : ℕ) (bs : List ℕ)
      → i + length bs ≤ size
      → fread s i (length bs) ≡ replicate (length bs) 0xff
      → fread (fwrite s i bs).1 i (length bs) ≡ bs
  pub kept_before :
      (s : Store) (i : ℕ) (bs : List ℕ) (j n : ℕ)
      → j + n ≤ i
      → fread (fwrite s i bs).1 j n ≡ fread s j n
  pub kept_behind :
      (s : Store) (i : ℕ) (bs : List ℕ) (j n : ℕ)
      → i + length bs ≤ j
      → fread (fwrite s i bs).1 j n ≡ fread s j n
  pub erase_opens : (s : Store) → opens (ferase s).1 ≡ opens s
  pub erased :
      (s : Store) (j n : ℕ)
      → (ferase s).0 ≡ true
      → j + n ≤ size
      → fread (ferase s).1 j n ≡ replicate n 0xff
  pub short_read : (s : Store) (j n : ℕ) → 0 < n → size < j + n → length (fread s j n) < n

-- The static sfpcount of sfp_entry, and the file.
pub record SfpDb (S : Type 0) : Type 0 where
  pub sfpcount : ℕ
  pub file : S

pub data Oper : Type 0 where
  sfp_get : Oper
  sfp_add : Oper

-- The result, the entry that was read, if one was, and the database.
abbrev pub Entry : Type 0 → Type 0
Entry S = ℤ × (Option SfpInfo × SfpDb S)

abbrev pub offset : ℕ → ℕ
offset n = 1 + n * sfp_size

module _ (fs : SfpFile) where
  open fs use {Store, opens, size, fread, fwrite, ferase}

  unfoldable pub storage_sfpdb_erase : Store → ℤ × Store
  storage_sfpdb_erase s =
      if not (opens s)
      then (negsuc 0, s)
      else (if (ferase s).0 then pos 0 else negsuc 0, (ferase s).1)

  -- Whether the counting goes on at an entry.
  unfoldable pub is_entry : Store → ℕ → Bool
  unfolding sfp_valid
  is_entry s n =
      (length (fread s (offset n) sfp_size) == sfp_size)
      && sfp_valid sfp_pn_len (fread s (offset n) sfp_size)

  -- Each round goes on by one entry, so that the loop ends within as many rounds as the file has bytes.
  unfoldable pub count_sfps : ℕ → ℕ → Store → ℕ
  unfolding is_entry
  count_sfps zero n s = n
  count_sfps (suc left) n s =
      let rest = count_sfps left (suc n) s in if is_entry s n then rest else n

  unfoldable pub recount : ℕ → SfpDb Store → SfpDb Store
  unfolding count_sfps
  recount zero db = record db { sfpcount = count_sfps size 0 db.file }
  recount (suc n) db = db

  unfoldable pub get_entry : ℕ → SfpDb Store → Entry Store
  unfolding unpacked sum_bytes
  get_entry n db =
      let bs = fread db.file (offset n) sfp_size in
      if not (length bs == sfp_size)
      then (negsuc 0, (none, db))
      else if not (sum_bytes (take 32 bs) % 2 ^ 8 == get_or bs 32 0)
      then (negsuc 0, (none, db))
      else (pos db.sfpcount, (some (unpacked bs), db))

  unfoldable pub add_entry : SfpInfo → SfpDb Store → Entry Store
  unfolding packed
  add_entry sfp db =
      let (whole, file) = fwrite db.file (offset db.sfpcount) (packed sfp) in
      if whole
      then (pos (db.sfpcount + 1), (none, record { sfpcount = db.sfpcount + 1; file = file }))
      else (negsuc 0, (none, record db { file = file }))

  unfoldable pub run_oper : SfpInfo → Oper → ℕ → SfpDb Store → Entry Store
  unfolding get_entry add_entry
  run_oper sfp sfp_get n db =
      if (n == 0) && (db.sfpcount == 0) then (pos 0, (none, db)) else get_entry n db
  run_oper sfp sfp_add n db =
      if db.sfpcount == sfps_max then (negsuc 1, (none, db)) else add_entry sfp db

  unfoldable pub sfp_entry : SfpInfo → Oper → ℕ → SfpDb Store → Entry Store
  unfolding recount run_oper
  sfp_entry sfp oper n db =
      if leb sfps_max n
      then (negsuc 3, (none, db))
      else if not (opens db.file)
      then (negsuc 0, (none, db))
      else run_oper sfp oper n (recount n db)
