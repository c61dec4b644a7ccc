-- ===== src/Shell/Script/Boot.antt =====
-- shell_boot_script of shell/shell.c runs the commands of the script one after the other.
use wrpc_sw.Prelude.{ℕ, ◌≤◌, ◌≡◌, true, false, Option, some, List, [], ◌∷◌, ◌++◌, length, ◌==◌}
use wrpc_sw.Shell.Line.{sh_max_line_len}
use wrpc_sw.Shell.Commands.{Shell}
use wrpc_sw.Shell.Script.{is_empty, load, run_cmd, Pointer, move_to, boot_from}

-- No semicolon.
abbrev pub Plain : List ℕ → Type 0
Plain [] = Unit
Plain (c ∷ cmd) = ((c == b';') ≡ false) × Plain cmd

-- A command of the script: not empty, without a semicolon, and short enough for the buffer.
abbrev pub IsCmd : List ℕ → Type 0
IsCmd cmd = Plain cmd × (length cmd ≤ sh_max_line_len) × (is_empty cmd ≡ false)

abbrev pub AllCmds : List (List ℕ) → Type 0
AllCmds [] = Unit
AllCmds (cmd ∷ cmds) = IsCmd cmd × AllCmds cmds

-- The text of a script: commands with a semicolon behind each, and the text behind the last one.
abbrev pub script : List (List ℕ) → List ℕ → List ℕ
script [] last = last
script (cmd ∷ cmds) last = cmd ++ (b';' ∷ script cmds last)

-- What stands behind the last semicolon is a command too, unless it is empty.
abbrev pub IsLast : List ℕ → Type 0
IsLast last = Plain last × (length last ≤ sh_max_line_len)

module _ {W : Type 0} (at : Pointer W) where
  -- What the script does, command by command: the pointer is moved to the rest, and the command is run.
  abbrev pub run_script : List (List ℕ) → List ℕ → Shell W → Shell W
  run_script [] [] s = s
  run_script [] (c ∷ last) s = run_cmd (c ∷ last) (move_to at [] s)
  run_script (cmd ∷ cmds) last s =
      run_script cmds last (run_cmd cmd (move_to at (script cmds last) s))

  -- A round, after the command was read.
  abbrev round : ℕ → List ℕ → Shell W → List ℕ × List ℕ → Option (Shell W)
  round rounds start s (cmd, rest) = elim (is_empty cmd) [
    | true ↦ some (load [] (move_to at rest s))
    | false ↦ boot_from at rounds start (run_cmd cmd (move_to at rest s))
  ]
