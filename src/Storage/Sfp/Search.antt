-- ===== src/Storage/Sfp/Search.antt =====
-- The search, the addition and the update of an entry of the SFP database in dev/storage-sfp.c.
use wrpc_sw.Prelude.{ℕ, zero, suc, Bool, false, none, some, List, [], ◌∷◌, ltb, ◌==◌, if◌then◌else◌}
use wrpc_sw.Prelude.Int.{ℤ, pos, negsuc, ltb_ℤ, leb_ℤ}
use wrpc_sw.Storage.Sfp.{
  SfpInfo, SfpFile, SfpDb, Entry, sfp_get, sfp_add, sfp_pn_len, sfps_max, sfp_entry, strncmp_same,
  storage_sfpdb_erase,
}

-- An entry with the parameters of another.
abbrev pub with_params : SfpInfo → SfpInfo → SfpInfo
with_params sfp dbsfp = record sfp { alpha = dbsfp.alpha; d_tx = dbsfp.d_tx; d_rx = dbsfp.d_rx }

abbrev pub no_sfp : SfpInfo
no_sfp = record { pn = []; alpha = 0; d_tx = 0; d_rx = 0; chksum = 0 }

-- An entry of the database, with new parameters if the name is the same.
abbrev pub updated : SfpInfo → SfpInfo → SfpInfo
updated sfp dbsfp = if strncmp_same sfp_pn_len dbsfp.pn sfp.pn then with_params dbsfp sfp else dbsfp

abbrev is_zero : ℤ → Bool
is_zero (pos n) = n == 0
is_zero (negsuc n) = false

module _ (fs : SfpFile) where
  open fs use {Store}

  -- The result, the entry with the parameters that were found, and the database.
  abbrev pub Found : Type 0
  Found = ℤ × (SfpInfo × SfpDb Store)

  -- One round. A result above 0 comes with the entry that was read.
  unfoldable pub match_round : ℕ → SfpInfo → Entry Store → Found → Found
  unfolding strncmp_same
  match_round i sfp (negsuc e, (r, db)) rest = (negsuc e, (sfp, db))
  match_round i sfp (pos zero, (r, db)) rest = (pos 0, (sfp, db))
  match_round i sfp (pos (suc n), (none, db)) rest = (pos 0, (sfp, db))
  match_round i sfp (pos (suc n), (some dbsfp, db)) rest =
      if strncmp_same sfp_pn_len dbsfp.pn sfp.pn
      then (pos 1, (with_params sfp dbsfp, db))
      else if ltb (suc i) (suc n)
      then rest
      else (pos 0, (sfp, db))

  unfoldable pub match_loop : ℕ → ℕ → SfpInfo → SfpDb Store → Found
  unfolding sfp_entry match_round
  match_loop zero i sfp db = (pos 0, (sfp, db))
  match_loop (suc left) i sfp db =
      let entry = sfp_entry fs no_sfp sfp_get i db in
      let rest = match_loop left (suc i) sfp entry.1.1 in match_round i sfp entry rest

  -- The round at SFPS_MAX ends the loop, in sfp_entry.
  unfoldable pub storage_match_sfp : SfpInfo → SfpDb Store → Found
  unfolding match_loop
  storage_match_sfp sfp db = match_loop (suc sfps_max) 0 sfp db

  -- What the first loop of storage_update_sfp has read: the result, 1 at first, and the entries.
  abbrev pub Copied : Type 0
  Copied = ℤ × (List SfpInfo × SfpDb Store)

  unfoldable pub copy_round : ℕ → SfpInfo → Entry Store → Copied → Copied
  copy_round i sfp (negsuc e, (r, db)) rest = (negsuc e, ([], db))
  copy_round i sfp (pos zero, (r, db)) rest = (pos 0, ([], db))
  copy_round i sfp (pos (suc n), (none, db)) rest = (pos 0, ([], db))
  copy_round i sfp (pos (suc n), (some dbsfp, db)) rest =
      if ltb (suc i) (suc n)
      then (rest.0, (updated sfp dbsfp ∷ rest.1.0, rest.1.1))
      else (pos (suc n), (updated sfp dbsfp ∷ [], db))

  unfoldable pub copy_loop : ℕ → ℕ → SfpInfo → SfpDb Store → Copied
  unfolding sfp_entry copy_round
  copy_loop zero i sfp db = (pos 0, ([], db))
  copy_loop (suc left) i sfp db =
      let entry = sfp_entry fs no_sfp sfp_get i db in
      let rest = copy_loop left (suc i) sfp entry.1.1 in copy_round i sfp entry rest

  -- The entries are added one after the other, n of them already; the first error ends the loop.
  unfoldable pub add_loop : ℕ → List SfpInfo → SfpDb Store → ℤ × SfpDb Store
  unfolding sfp_entry
  add_loop n [] db = (pos n, db)
  add_loop n (sfp ∷ sfps) db =
      let entry = sfp_entry fs sfp sfp_add 0 db in
      let rest = add_loop (suc n) sfps entry.1.1 in
      if ltb_ℤ entry.0 (pos 0) then (entry.0, entry.1.1) else rest

  unfoldable pub rewrite_db : List SfpInfo → SfpDb Store → ℤ × SfpDb Store
  unfolding storage_sfpdb_erase add_loop
  rewrite_db sfps db =
      let (ret, file) = storage_sfpdb_erase fs db.file in
      let db' = record db { file = file } in
      if ltb_ℤ ret (pos 0) then (negsuc 0, db') else add_loop 0 sfps db'

  unfoldable pub storage_update_sfp : SfpInfo → SfpDb Store → ℤ × SfpDb Store
  unfolding copy_loop rewrite_db
  storage_update_sfp sfp db =
      let (ret, (sfps, db')) = copy_loop (suc sfps_max) 0 sfp db in
      if leb_ℤ ret (pos 0) then (ret, db') else rewrite_db sfps db'

  -- With SFP_ADD. What the search puts into its copy of the entry is left aside.
  unfoldable pub storage_get_sfp : SfpInfo → SfpDb Store → ℤ × SfpDb Store
  unfolding storage_match_sfp storage_update_sfp sfp_entry
  storage_get_sfp sfp db =
      let (ret, (_, db')) = storage_match_sfp sfp db in
      if is_zero ret
      then (let entry = sfp_entry fs sfp sfp_add 0 db' in (entry.0, entry.1.1))
      else storage_update_sfp sfp db'
