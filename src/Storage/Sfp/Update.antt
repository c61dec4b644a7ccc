-- ===== src/Storage/Sfp/Update.antt =====
-- storage_get_sfp of dev/storage-sfp.c for a name that is there: storage_update_sfp reads all entries,
-- erases the database and writes it again.
use wrpc_sw.Prelude.{ℕ, ◌+◌, ◌≤◌, ◌≡◌, ◌∙◌, true, List, [], ◌∷◌, ◌++◌, length, arith}
use wrpc_sw.Prelude.Int.{pos}
use wrpc_sw.Storage.Sfp.{SfpInfo, SfpFile, SfpDb, offset}
use wrpc_sw.Storage.Sfp.Search.{updated, add_loop}
use wrpc_sw.Storage.Sfp.Entries.{IsSfp}
use wrpc_sw.Storage.Sfp.Contents.{HasSfps, Entries, with_sum}

abbrev pub AllSfps : List SfpInfo → Type 0
AllSfps [] = Unit
AllSfps (e ∷ es) = IsSfp e × AllSfps es

-- Every entry with the name has the new parameters.
abbrev pub all_updated : SfpInfo → List SfpInfo → List SfpInfo
all_updated sfp [] = []
all_updated sfp (e ∷ es) = updated sfp e ∷ all_updated sfp es

abbrev with_sums : List SfpInfo → List SfpInfo
with_sums [] = []
with_sums (e ∷ es) = with_sum e ∷ with_sums es

module _ (fs : SfpFile) where
  -- The file after the entries are added.
  record Added (n : ℕ) (es es' : List SfpInfo) (db : SfpDb fs.Store) : Type 0 where
    after : SfpDb fs.Store
    result : add_loop fs n es' db ≡ (pos (n + length es'), after)
    holds : HasSfps fs after.file (es ++ es')

  pub blank_db :
      (s : fs.Store)
      → fs.opens s ≡ true
      → (fs.ferase s).0 ≡ true
      → offset 0 ≤ fs.size
      → HasSfps fs (fs.ferase s).1 []
  blank_db s o e room = record {
    opens = fs.erase_opens s ∙ o;
    holds = tt;
    inside = room;
    free = λ k l m. fs.erased s (offset k) 33 e (omega (arith, m));
  }
