-- ===== src/Storage/Script/Boot.antt =====
-- The boot runs a script in the flash line by line.
use mathlib.Core.Path.{subst}
use mathlib.Core.List.{append_assoc}
use wrpc_sw.Prelude.{
  ℕ, zero, suc, ◌+◌, ◌^◌, ◌≤◌, ◌<◌, ◌≡◌, sym, ap, ◌∙◌, Bool, true, some, List, [], ◌∷◌, ◌++◌,
  length, length-append, if◌then◌else◌, arith,
}
use wrpc_sw.Shell.Line.{sh_max_line_len}
use wrpc_sw.Shell.Commands.{Shell, AllCommands}
use wrpc_sw.Shell.Commands.Kept.{Keeps, Same-shell_exec}
use wrpc_sw.Storage.Script.{
  Area, header, read_line, storage_init_readcmd, run_line, load_end, load_line, Flash, seek_to,
  boot_flash,
}
use wrpc_sw.Storage.Script.Read.{Plain, Holds, read_line_lem, read_line_end}

-- The lines of a script, each with its newline.
abbrev pub text_of : List (List ℕ) → List ℕ
text_of [] = []
text_of (line ∷ lines) = line ++ (b'\n' ∷ text_of lines)

-- Lines that the buffer has room for.
abbrev pub AllLines : List (List ℕ) → Type 0
AllLines [] = Unit
AllLines (line ∷ lines) = (Plain line × (length line ≤ sh_max_line_len)) × AllLines lines

module _ (fs : Area) where
  Holds-behind :
      (st : fs.Store) (i : ℕ) (xs ys : List ℕ)
      → Holds fs st i (xs ++ ys)
      → Holds fs st (i + length xs) ys
  Holds-behind st i [] ys h = let e : i ≡ i + 0 = omega arith in subst (λ j. Holds fs st j ys) e h
  Holds-behind st i (x ∷ xs) ys h =
      let e : suc i + length xs ≡ i + suc (length xs) = omega arith in
      subst (λ j. Holds fs st j ys) e (Holds-behind st (suc i) xs ys h.1)

  reads :
      (next : Bool) (ptr : ℕ) (st : fs.Store)
      → fs.opens st ≡ true
      → storage_init_readcmd fs sh_max_line_len next ptr st
        ≡ read_line fs (suc sh_max_line_len) (if next then ptr else header) st
  unfolding storage_init_readcmd
  reads next ptr st o = ground (arith, o)

module _ (fs : Area) {W : Type 0} (at : Flash fs W) where
  -- What the lines of a script do from the i-th byte on: the pointer is moved behind each line, and the
  -- line is run.
  abbrev pub run_lines : ℕ → List (List ℕ) → Shell W → Shell W
  run_lines i [] s = load_end (seek_to fs at (i + 1) s)
  run_lines i (line ∷ lines) s =
      run_lines (i + length line + 1) lines
        (run_line (line ++ b'\n' ∷ []) (seek_to fs at (i + length line + 1) s))

  -- The file, and where the next line is read.
  abbrev pub place : W → fs.Store × ℕ
  place w = (at.file w, at.ptr w)

  -- After a line the file is the same, and the pointer where it was.
  stays :
      (n : ℕ) (line : List ℕ) (s : Shell W)
      → AllCommands (Keeps place) s.cmds
      → let r = run_line line (seek_to fs at n s) in
        AllCommands (Keeps place) r.cmds
        × ((at.file r.world ≡ at.file s.world) × (at.ptr r.world ≡ n))
  stays n line s k =
      let (cmds, kept) = Same-shell_exec place (load_line line (seek_to fs at n s)) k in
      (
        subst (AllCommands (Keeps place)) (sym cmds) k,
        (ap (λ x. x.0) kept ∙ at.file_kept n s.world, ap (λ x. x.1) kept ∙ at.sought n s.world),
      )

  one_line :
      (rounds n b : ℕ) (next : Bool) (bs : List ℕ) (s : Shell W)
      → storage_init_readcmd fs sh_max_line_len next (at.ptr s.world) (at.file s.world)
        ≡ (some (b ∷ bs), n)
      → boot_flash fs at (suc rounds) next s
        ≡ boot_flash fs at rounds true (run_line (b ∷ bs) (seek_to fs at n s))
  unfolding boot_flash
  one_line rounds n b next bs s e = ground (arith, e)

  last_line :
      (rounds n : ℕ) (next : Bool) (s : Shell W)
      → storage_init_readcmd fs sh_max_line_len next (at.ptr s.world) (at.file s.world)
        ≡ (some [], n)
      → boot_flash fs at (suc rounds) next s ≡ some (load_end (seek_to fs at n s))
  unfolding boot_flash
  last_line rounds n next s e = ground (arith, e)

  whole_line :
      (rounds n : ℕ) (next : Bool) (line : List ℕ) (s : Shell W)
      → storage_init_readcmd fs sh_max_line_len next (at.ptr s.world) (at.file s.world)
        ≡ (some (line ++ b'\n' ∷ []), n)
      → boot_flash fs at (suc rounds) next s
        ≡ boot_flash fs at rounds true (run_line (line ++ b'\n' ∷ []) (seek_to fs at n s))
  whole_line rounds n next [] s e = one_line rounds n b'\n' next [] s e
  whole_line rounds n next (b ∷ line) s e = one_line rounds n b next (line ++ b'\n' ∷ []) s e

  -- A script in the file, with an erased byte behind it, is run line by line.
  pub boot_flash-run_lines :
      (lines : List (List ℕ)) (rounds i : ℕ) (next : Bool) (st : fs.Store) (s : Shell W)
      → AllCommands (Keeps place) s.cmds
      → at.file s.world ≡ st
      → (if next then at.ptr s.world else header) ≡ i
      → fs.opens st ≡ true
      → AllLines lines
      → Holds fs st i (text_of lines ++ 0xff ∷ [])
      → i + length (text_of lines) + 1 < 2 ^ 16
      → length lines < rounds
      → boot_flash fs at rounds next s ≡ some (run_lines i lines s)
  boot_flash-run_lines lines zero i next st s k f p o a h l r = absurd (omega arith)
  boot_flash-run_lines [] (suc rounds) i next st s k f p o a h l r =
      last_line rounds (i + 1) next s (
        ap (storage_init_readcmd fs sh_max_line_len next (at.ptr s.world)) f
        ∙ reads fs next (at.ptr s.world) st o
        ∙ ap (λ j. read_line fs (suc sh_max_line_len) j st) p
        ∙ read_line_end fs sh_max_line_len i st h.0 (omega (arith, l)))
  boot_flash-run_lines (line ∷ lines) (suc rounds) i next st s k f p o a h l r =
      let text = text_of lines in
      let n : length (line ++ (b'\n' ∷ text)) ≡ length line + suc (length text) =
        length-append line (b'\n' ∷ text) in
      let h' : Holds fs st i (line ++ (b'\n' ∷ (text ++ 0xff ∷ []))) =
        subst (Holds fs st i) (append_assoc line (b'\n' ∷ text) (0xff ∷ [])) h in
      let behind = (Holds-behind fs st i line (b'\n' ∷ (text ++ 0xff ∷ [])) h').1 in
      let after : suc (i + length line) ≡ i + length line + 1 = omega arith in
      let (k', (f', p')) = stays (i + length line + 1) (line ++ b'\n' ∷ []) s k in
      whole_line rounds (i + length line + 1) next line s (
        ap (storage_init_readcmd fs sh_max_line_len next (at.ptr s.world)) f
        ∙ reads fs next (at.ptr s.world) st o
        ∙ ap (λ j. read_line fs (suc sh_max_line_len) j st) p
        ∙ read_line_lem fs (suc sh_max_line_len) i line (text ++ 0xff ∷ []) st a.0.0 h'
            (omega (arith, a.0.1)) (omega (arith, n, l)))
      ∙ boot_flash-run_lines lines rounds (i + length line + 1) true st
          (run_line (line ++ b'\n' ∷ []) (seek_to fs at (i + length line + 1) s)) k' (f' ∙ f) p' o
          a.1 (subst (λ j. Holds fs st j (text ++ 0xff ∷ [])) after behind) (omega (arith, n, l))
          (omega arith)
