-- ===== src/Storage/Script/Read.antt =====
-- What storage_init_readcmd of dev/storage-init.c reads of a script.
use mathlib.Core.Path.{subst}
use wrpc_sw.Prelude.{
  ℕ, zero, suc, ◌+◌, ◌%◌, ◌^◌, ◌≤◌, ◌<◌, ◌≡◌, ◌≢◌, sym, ap, ◌∙◌, some, List, [], ◌∷◌, ◌++◌, length,
  arith,
}
use wrpc_sw.Storage.Script.{Area, header, read_line, count_used}

-- A text without newlines and without erased bytes.
abbrev pub Plain : List ℕ → Type 0
Plain [] = Unit
Plain (b ∷ bs) = ((b < 0xff) × (b ≢ b'\n')) × Plain bs

-- Bytes that are not erased.
abbrev pub AllPlain : List ℕ → Type 0
AllPlain [] = Unit
AllPlain (b ∷ bs) = (b < 0xff) × AllPlain bs

module _ (fs : Area) where
  -- The bytes stand in the file from place i on.
  abbrev pub Holds : fs.Store → ℕ → List ℕ → Type 0
  Holds s i [] = Unit
  Holds s i (b ∷ bs) = (fs.byte_at s i ≡ some b) × Holds s (suc i) bs

  pub read_line_lem :
      (left i : ℕ) (line rest : List ℕ) (s : fs.Store)
      → Plain line
      → Holds s i (line ++ b'\n' ∷ rest)
      → length line < left
      → i + length line + 1 < 2 ^ 16
      → read_line fs left i s ≡ (some (line ++ b'\n' ∷ []), i + length line + 1)
  unfolding read_line
  read_line_lem zero i line rest s p h l e = absurd (omega arith)
  read_line_lem (suc left) i [] rest s p h l e = ground (arith, h.0)
  read_line_lem (suc left) i (b ∷ line) rest s p h l e =
      let next : (i + 1) % 2 ^ 16 ≡ suc i = omega arith in
      let later =
        ap (λ j. read_line fs left j s) next
        ∙ read_line_lem left (suc i) line rest s p.1 h.1 (omega arith) (omega arith) in
      ground (arith, h.0, later)

  -- At an erased byte there is nothing to read.
  pub read_line_end :
      (left i : ℕ) (s : fs.Store)
      → fs.byte_at s i ≡ some 0xff
      → i + 1 < 2 ^ 16
      → read_line fs (suc left) i s ≡ (some [], i + 1)
  unfolding read_line
  read_line_end left i s h l =
      let next : (i + 1) % 2 ^ 16 ≡ i + 1 = omega arith in ground (arith, h, next)

  pub count_used_lem :
      (left used : ℕ) (script : List ℕ) (s : fs.Store)
      → AllPlain script
      → Holds s (header + used) script
      → fs.byte_at s (header + used + length script) ≡ some 0xff
      → length script ≤ left
      → used + length script < 2 ^ 16
      → count_used fs left used s ≡ used + length script
  unfolding count_used
  count_used_lem zero used [] s p h z l e = omega arith
  count_used_lem (suc left) used [] s p h z l e =
      let here : header + used + 0 ≡ header + used = omega arith in
      let z' = ap (fs.byte_at s) (sym here) ∙ z in ground (arith, z')
  count_used_lem zero used (b ∷ script) s p h z l e = absurd (omega arith)
  count_used_lem (suc left) used (b ∷ script) s p h z l e =
      let next : (used + 1) % 2 ^ 16 ≡ suc used = omega arith in
      let place : suc (header + used) ≡ header + suc used = omega arith in
      let end' : header + suc used + length script ≡ header + used + suc (length script) =
        omega arith in
      let later =
        ap (λ j. count_used fs left j s) next
        ∙ count_used_lem left (suc used) script s p.1 (subst (λ j. Holds s j script) place h.1)
            (ap (fs.byte_at s) end' ∙ z) (omega arith) (omega arith) in
      ground (arith, h.0, later)
