-- ===== src/Storage/Sfp/Lookup.antt =====
-- storage_match_sfp of dev/storage-sfp.c on a file that holds entries.
use wrpc_sw.Prelude.{
  ℕ, zero, suc, ◌+◌, ◌≤◌, ◌<◌, ◌≡◌, refl, ap, ◌∙◌, true, false, ◌&&◌, none, some, List, [], ◌∷◌,
  length, leb, ltb, ◌==◌, Bool-cases, inl, inr, arith, if◌then◌else◌,
}
use wrpc_sw.Prelude.Int.{ℤ, pos}
use wrpc_sw.Storage.Sfp.{
  SfpInfo, SfpFile, SfpDb, Oper, sfp_get, sfp_pn_len, sfps_max, strncmp_same, recount, run_oper,
  sfp_entry,
}
use wrpc_sw.Storage.Sfp.Search.{with_params, no_sfp, match_round, match_loop, storage_match_sfp}
use wrpc_sw.Storage.Sfp.Contents.{HasSfps, Entries, with_sum, recount_lem, get_entry_lem}

-- The first entry of the same name: the result, and the parameters.
unfoldable pub lookup : SfpInfo → List SfpInfo → ℤ × SfpInfo
unfolding strncmp_same
lookup sfp [] = (pos 0, sfp)
lookup sfp (e ∷ es) =
    let rest = lookup sfp es in
    if strncmp_same sfp_pn_len e.pn sfp.pn then (pos 1, with_params sfp e) else rest

module _ (fs : SfpFile) where
  -- A get of an entry when the entries are counted.
  counted_get :
      (i : ℕ) (db : SfpDb fs.Store) (n : ℕ) (e : SfpInfo) (es : List SfpInfo)
      → Entries fs db.file i (e ∷ es)
      → db.sfpcount ≡ suc n
      → run_oper fs no_sfp sfp_get i db ≡ (pos (suc n), (some (with_sum e), db))
  unfolding run_oper
  counted_get i db n e es h c =
      let some_there : (db.sfpcount == 0) ≡ false = ground (arith, c) in
      let there : ((i == 0) && (db.sfpcount == 0)) ≡ false = ground (arith, some_there) in
      rw there (get_entry_lem fs i db e h.0 h.1.0 ∙ ap (λ k. (pos k, (some (with_sum e), db))) c)

  -- sfp_entry behind its first tests.
  pub sfp_entry_open :
      (x : SfpInfo) (oper : Oper) (i : ℕ) (db db' : SfpDb fs.Store)
      → fs.opens db.file ≡ true
      → i < sfps_max
      → recount fs i db ≡ db'
      → sfp_entry fs x oper i db ≡ run_oper fs x oper i db'
  unfolding sfp_entry
  sfp_entry_open x oper i db db' o l c =
      let low : leb sfps_max i ≡ false = ground arith in rw (low, o) (ap (run_oper fs x oper i) c)

  pub get_lem :
      (i : ℕ) (db : SfpDb fs.Store) (n : ℕ) (e : SfpInfo) (es : List SfpInfo)
      → fs.opens db.file ≡ true
      → i < sfps_max
      → Entries fs db.file i (e ∷ es)
      → recount fs i db ≡ record { sfpcount = suc n; file = db.file }
      → sfp_entry fs no_sfp sfp_get i db
        ≡ (pos (suc n), (some (with_sum e), record { sfpcount = suc n; file = db.file }))
  get_lem i db n e es o l h c =
      let db' : SfpDb fs.Store = record { sfpcount = suc n; file = db.file } in
      sfp_entry_open no_sfp sfp_get i db db' o l c ∙ counted_get i db' n e es h refl

  no_entries :
      (c : ℕ) (s : fs.Store)
      → HasSfps fs s []
      → sfp_entry fs no_sfp sfp_get 0 (record { sfpcount = c; file = s })
        ≡ (pos 0, (none, record { sfpcount = 0; file = s }))
  unfolding run_oper
  no_entries c s h =
      sfp_entry_open no_sfp sfp_get 0 (record { sfpcount = c; file = s })
        (record { sfpcount = 0; file = s }) h.opens (omega arith) (recount_lem fs c s [] h)

  -- The rounds of the search from the i-th entry on.
  match_loop_lem :
      (left i : ℕ) (sfp : SfpInfo) (db : SfpDb fs.Store) (n : ℕ) (e : SfpInfo) (es : List SfpInfo)
      → fs.opens db.file ≡ true
      → Entries fs db.file i (e ∷ es)
      → i + length es ≡ n
      → n < sfps_max
      → length es < left
      → recount fs i db ≡ record { sfpcount = suc n; file = db.file }
      → match_loop fs left i sfp db ≡ (
        (lookup sfp (e ∷ es)).0,
        ((lookup sfp (e ∷ es)).1, record { sfpcount = suc n; file = db.file }),
      )
  unfolding match_loop match_round lookup recount
  match_loop_lem zero i sfp db n e es o h m l r c = elim r [ ]
  match_loop_lem (suc left) i sfp db n e [] o h m l r c =
      let last : ltb (suc i) (suc n) ≡ false = ground (arith, m) in
      rw (get_lem i db n e [] o (omega (arith, m)) h c)
        (elim (Bool-cases (strncmp_same sfp_pn_len e.pn sfp.pn)) [
          | inl same ↦ rw same refl
          | inr other ↦ rw (other, last) refl
        ])
  match_loop_lem (suc left) i sfp db n e (e' ∷ es) o h m l r c =
      let more : ltb (suc i) (suc n) ≡ true = ground (arith, m) in
      let rest =
        match_loop_lem left (suc i) sfp (record { sfpcount = suc n; file = db.file }) n e' es o
          h.1.1 (omega (arith, m)) l (omega (arith, r)) refl in
      rw (get_lem i db n e (e' ∷ es) o (omega (arith, m)) h c)
        (elim (Bool-cases (strncmp_same sfp_pn_len e.pn sfp.pn)) [
          | inl same ↦ rw same refl
          | inr other ↦ rw (other, more) rest
        ])

  -- On a file with up to four entries the search of storage_match_sfp is a lookup in their list, and it
  -- counts them.
  pub storage_match_sfp_lem :
      (sfp : SfpInfo) (es : List SfpInfo) (c : ℕ) (s : fs.Store)
      → HasSfps fs s es
      → length es ≤ sfps_max
      → storage_match_sfp fs sfp (record { sfpcount = c; file = s })
        ≡ ((lookup sfp es).0, ((lookup sfp es).1, record { sfpcount = length es; file = s }))
  unfolding storage_match_sfp match_loop match_round lookup
  storage_match_sfp_lem sfp [] c s h l = rw (no_entries c s h) refl
  storage_match_sfp_lem sfp (e ∷ es) c s h l =
      match_loop_lem (suc sfps_max) 0 sfp (record { sfpcount = c; file = s }) (length es) e es
        h.opens h.holds (omega arith) (omega arith) (omega arith) (recount_lem fs c s (e ∷ es) h)
