-- ===== src/Storage/Sfp/Add.antt =====
-- storage_get_sfp of dev/storage-sfp.c with SFP_ADD.
use mathlib.Core.Path.{subst}
use wrpc_sw.Prelude.{
  ℕ, suc, ◌+◌, ◌≤◌, ◌<◌, ◌≡◌, refl, sym, ap, ◌∙◌, true, false, none, List, [], ◌∷◌, ◌++◌, length,
  length-append, replicate, ◌==◌, arith,
}
use wrpc_sw.Prelude.Int.{pos, negsuc}
use wrpc_sw.Storage.Sfp.{
  SfpInfo, SfpFile, SfpDb, sfp_add, sfp_size, sfps_max, packed, offset, add_entry, run_oper,
  sfp_entry,
}
use wrpc_sw.Storage.Sfp.Search.{storage_get_sfp}
use wrpc_sw.Storage.Sfp.Entries.{IsSfp, length-packed}
use wrpc_sw.Storage.Sfp.Contents.{HasSfps, Entries, recount_lem}
use wrpc_sw.Storage.Sfp.Lookup.{lookup, sfp_entry_open, storage_match_sfp_lem}

module _ (fs : SfpFile) where
  Entries-kept :
      (s t : fs.Store) (n : ℕ) (es : List SfpInfo)
      → ((j : ℕ)
          → j < n + length es
          → fs.fread t (offset j) sfp_size ≡ fs.fread s (offset j) sfp_size)
      → Entries fs s n es
      → Entries fs t n es
  Entries-kept s t n [] k h = tt
  Entries-kept s t n (e ∷ es) k h = (
    h.0,
    (k n (omega arith) ∙ h.1.0, Entries-kept s t (suc n) es (λ j l. k j (omega (arith, l))) h.1.1),
  )

  Entries-append :
      (s : fs.Store) (n : ℕ) (es es' : List SfpInfo)
      → Entries fs s n es
      → Entries fs s (n + length es) es'
      → Entries fs s n (es ++ es')
  Entries-append s n [] es' h k =
      let e : n + 0 ≡ n = omega arith in subst (λ j. Entries fs s j es') e k
  Entries-append s n (x ∷ es) es' h k =
      let e : n + suc (length es) ≡ suc n + length es = omega arith in
      (h.0, (h.1.0, Entries-append s (suc n) es es' h.1.1 (subst (λ j. Entries fs s j es') e k)))

  abbrev pub written : fs.Store → SfpInfo → List SfpInfo → fs.Store
  written s sfp es = (fs.fwrite s (offset (length es)) (packed sfp)).1

  module _ (s : fs.Store) (sfp : SfpInfo) (es : List SfpInfo) (p : IsSfp sfp) (h : HasSfps fs s es)
      (room : offset (suc (length es)) ≤ fs.size) where
    fits : offset (length es) + length (packed sfp) ≤ fs.size
    fits = omega (arith, length-packed sfp p, room)

    kept_front :
        (j : ℕ)
        → j < length es
        → fs.fread (written s sfp es) (offset j) sfp_size ≡ fs.fread s (offset j) sfp_size
    kept_front j l =
        fs.kept_before s (offset (length es)) (packed sfp) (offset j) sfp_size (omega (arith, l))

    new_entry : fs.fread (written s sfp es) (offset (length es)) sfp_size ≡ packed sfp
    new_entry =
        let n : length (packed sfp) ≡ 33 = length-packed sfp p in
        let blank = h.free (length es) (omega arith) room in
        let blank' =
          subst (λ k. fs.fread s (offset (length es)) k ≡ replicate k 0xff) (sym n) blank in
        ap (fs.fread (written s sfp es) (offset (length es))) (sym n)
        ∙ fs.reads_back s (offset (length es)) (packed sfp) fits blank'

    added_free :
        (k : ℕ)
        → length (es ++ sfp ∷ []) ≤ k
        → offset (suc k) ≤ fs.size
        → fs.fread (written s sfp es) (offset k) sfp_size ≡ replicate sfp_size 0xff
    added_free k l m =
        let n = length-append es (sfp ∷ []) in
        fs.kept_behind s (offset (length es)) (packed sfp) (offset k) sfp_size
          (omega (arith, length-packed sfp p, n, l))
        ∙ h.free k (omega (arith, n, l)) m

    pub added : HasSfps fs (written s sfp es) (es ++ sfp ∷ [])
    added =
        let n = length-append es (sfp ∷ []) in
        let at : 0 + length es ≡ length es = omega arith in
        let e =
          subst (λ j. Entries fs (written s sfp es) j (sfp ∷ [])) (sym at) (p, (new_entry, tt)) in
        record {
          opens = fs.write_opens s (offset (length es)) (packed sfp) ∙ h.opens;
          holds =
              Entries-append (written s sfp es) 0 es (sfp ∷ [])
                (Entries-kept s (written s sfp es) 0 es (λ j l. kept_front j (omega (arith, l)))
                  h.holds)
                e;
          inside = omega (arith, n, room);
          free = added_free;
        }

    -- The entry is written behind the others.
    pub add_lem :
        (c : ℕ)
        → length es < sfps_max
        → sfp_entry fs sfp sfp_add 0 (record { sfpcount = c; file = s }) ≡ (
          pos (length es + 1),
          (none, record { sfpcount = length es + 1; file = written s sfp es }),
        )
    unfolding run_oper add_entry
    add_lem c l =
        let more : (length es == sfps_max) ≡ false = ground (arith, l) in
        let whole = fs.writes s (offset (length es)) (packed sfp) fits in
        sfp_entry_open fs sfp sfp_add 0 (record { sfpcount = c; file = s })
          (record { sfpcount = length es; file = s }) h.opens (omega arith)
          (recount_lem fs c s es h)
        ∙ rw (more, whole) refl

  -- A database with four entries refuses a fifth one with a new name.
  pub storage_get_sfp_full :
      (sfp : SfpInfo) (es : List SfpInfo) (c : ℕ) (s : fs.Store)
      → HasSfps fs s es
      → length es ≡ sfps_max
      → (lookup sfp es).0 ≡ pos 0
      → storage_get_sfp fs sfp (record { sfpcount = c; file = s })
        ≡ (negsuc 1, record { sfpcount = sfps_max; file = s })
  unfolding storage_get_sfp run_oper
  storage_get_sfp_full sfp es c s h four new =
      let full : (length es == sfps_max) ≡ true = ground (arith, four) in
      let db : SfpDb fs.Store = record { sfpcount = length es; file = s } in
      let refused : sfp_entry fs sfp sfp_add 0 db ≡ (negsuc 1, (none, db)) =
        sfp_entry_open fs sfp sfp_add 0 db db h.opens (omega arith)
          (recount_lem fs (length es) s es h)
        ∙ rw full refl in
      rw (storage_match_sfp_lem fs sfp es c s h (omega (arith, four)), new, refused)
        (ap (λ n. (negsuc 1, record { sfpcount = n; file = s })) four)
