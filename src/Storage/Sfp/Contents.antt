-- ===== src/Storage/Sfp/Contents.antt =====
-- What a file that holds the SFP database gives to sfp_entry of dev/storage-sfp.c.
use wrpc_sw.Prelude.{
  ℕ, zero, suc, ◌+◌, ◌%◌, ◌^◌, ◌≤◌, ◌≡◌, refl, sym, ap, ◌∙◌, true, false, some, List, [], ◌∷◌, take,
  get_or, length, replicate, ◌==◌, dec_le, arith,
}
use wrpc_sw.Prelude.Int.{pos}
use wrpc_sw.Storage.Sfp.{
  SfpInfo, SfpFile, SfpDb, sfp_size, sum_bytes, summed, packed, offset, sfp_valid, is_entry,
  count_sfps, recount, get_entry,
}
use wrpc_sw.Storage.Sfp.Entries.{
  IsSfp, length-packed, sfp_valid-packed, checksum-packed, unpacked-packed,
}

-- With its checksum.
abbrev pub with_sum : SfpInfo → SfpInfo
with_sum sfp = record sfp { chksum = sum_bytes (summed sfp) % 2 ^ 8 }

module _ (fs : SfpFile) where
  -- The entries stand in the file from the n-th place on.
  abbrev pub Entries : fs.Store → ℕ → List SfpInfo → Type 0
  Entries s n [] = Unit
  Entries s n (e ∷ es) =
      IsSfp e × ((fs.fread s (offset n) sfp_size ≡ packed e) × Entries s (suc n) es)

  -- The file opens and holds the entries, and what is behind them is erased.
  pub record HasSfps (s : fs.Store) (es : List SfpInfo) : Type 0 where
    pub opens : fs.opens s ≡ true
    pub holds : Entries s 0 es
    pub inside : offset (length es) ≤ fs.size
    pub free :
        (k : ℕ)
        → length es ≤ k
        → offset (suc k) ≤ fs.size
        → fs.fread s (offset k) sfp_size ≡ replicate sfp_size 0xff

  is_entry-packed :
      (s : fs.Store) (n : ℕ) (e : SfpInfo)
      → IsSfp e
      → fs.fread s (offset n) sfp_size ≡ packed e
      → is_entry fs s n ≡ true
  unfolding is_entry
  is_entry-packed s n e p r = rw (r, sfp_valid-packed e p) ground (arith, length-packed e p)

  no_entry : (s : fs.Store) (es : List SfpInfo) → HasSfps s es → is_entry fs s (length es) ≡ false
  unfolding is_entry sfp_valid
  no_entry s es h = elim (dec_le (offset (suc (length es))) fs.size) [
    | yes room ↦ rw (h.free (length es) (omega arith) room) refl
    | no short ↦
        ground (arith, fs.short_read s (offset (length es)) sfp_size (omega arith) (omega arith))
  ]

  count_sfps_lem :
      (left n : ℕ) (s : fs.Store) (es : List SfpInfo)
      → Entries s n es
      → is_entry fs s (n + length es) ≡ false
      → length es ≤ left
      → count_sfps fs left n s ≡ n + length es
  unfolding count_sfps
  count_sfps_lem zero n s [] h f l = omega arith
  count_sfps_lem zero n s (e ∷ es) h f l = ground arith
  count_sfps_lem (suc left) n s [] h f l =
      let m : n + 0 ≡ n = omega arith in
      let f' : is_entry fs s n ≡ false = ap (is_entry fs s) (sym m) ∙ f in rw f' (sym m)
  count_sfps_lem (suc left) n s (e ∷ es) h f l =
      let m : suc n + length es ≡ n + suc (length es) = omega arith in
      let rest = count_sfps_lem left (suc n) s es h.1.1 (ap (is_entry fs s) m ∙ f) (omega arith) in
      rw (is_entry-packed s n e h.0 h.1.0) (rest ∙ m)

  -- The entries are counted again where sfp_entry begins with the first.
  pub recount_lem :
      (c : ℕ) (s : fs.Store) (es : List SfpInfo)
      → HasSfps s es
      → recount fs 0 (record { sfpcount = c; file = s }) ≡ record { sfpcount = length es; file = s }
  unfolding recount
  recount_lem c s es h =
      let e : 0 + length es ≡ length es = omega arith in
      let last = ap (is_entry fs s) e ∙ no_entry s es h in
      ap (λ n. record { sfpcount = n; file = s })
        (count_sfps_lem fs.size 0 s es h.holds last (omega (arith, h.inside)) ∙ e)

  pub get_entry_lem :
      (n : ℕ) (db : SfpDb fs.Store) (e : SfpInfo)
      → IsSfp e
      → fs.fread db.file (offset n) sfp_size ≡ packed e
      → get_entry fs n db ≡ (pos db.sfpcount, (some (with_sum e), db))
  unfolding get_entry
  get_entry_lem n db e p r =
      let whole : (length (packed e) == sfp_size) ≡ true = ground (arith, length-packed e p) in
      let right : (sum_bytes (take 32 (packed e)) % 2 ^ 8 == get_or (packed e) 32 0) ≡ true =
        ground (arith, checksum-packed e p) in
      rw (r, whole, right, unpacked-packed e p) refl
