-- ===== src/Shell/Script.antt =====
-- The built-in script of shell/shell.c: the commands of CONFIG_INIT_COMMAND, with semicolons between
-- them. `start` is that text without its final 0, and `p` what the pointer of build_init_readcmd has
-- before it; the pointer is a part of the program's state, which the command `init boot` moves too. The
-- script in the flash is in Storage/Script.
pub mod Boot
use wrpc_sw.Prelude.{
  ℕ, zero, suc, ◌+◌, Bool, true, false, Option, none, some, List, [], ◌∷◌, ◌++◌, drop, length, ◌==◌,
  ◌≡◌, if◌then◌else◌,
}
use wrpc_sw.Prelude.Int.{ℤ}
use wrpc_sw.Shell.Line.{sh_max_line_len}
use wrpc_sw.Shell.Commands.{Shell, with_buf, shell_exec}

-- The loop: the characters up to a semicolon, at most maxlen of them, and the rest.
unfoldable pub copy_cmd : ℕ → List ℕ → List ℕ × List ℕ
copy_cmd zero p = ([], p)
copy_cmd (suc maxlen) [] = ([], [])
copy_cmd (suc maxlen) (c ∷ p) = elim (c == b';') [
  | true ↦ ([], c ∷ p)
  | false ↦ (let (cmd, rest) = copy_cmd maxlen p in (c ∷ cmd, rest))
]

abbrev pub skip_semicolon : List ℕ → List ℕ
skip_semicolon [] = []
skip_semicolon (c ∷ p) = if c == b';' then p else c ∷ p

abbrev pub is_empty : List ℕ → Bool
is_empty [] = true
is_empty (c ∷ cmd) = false

-- The command and the pointer, which goes back to the start at the end.
unfoldable pub build_init_readcmd : ℕ → List ℕ → List ℕ → List ℕ × List ℕ
build_init_readcmd maxlen start p =
    let (cmd, rest) = copy_cmd maxlen p in
    (cmd, if is_empty cmd then start else skip_semicolon rest)

module _ {W : Type 0} where
  -- A command in cmd_buf, with its 0, and its length.
  abbrev pub load : List ℕ → Shell W → Shell W
  load cmd s = record s {
    line = record s.line {
      cmd_buf = cmd ++ (0 ∷ drop (suc (length cmd)) s.line.cmd_buf);
      cmd_len = length cmd;
    };
  }

  abbrev pub run_cmd : List ℕ → Shell W → Shell W
  run_cmd cmd s = (shell_exec none (load cmd s)).1

-- Where build_init_readcmd's static pointer is in the state of the program.
pub record Pointer (W : Type 0) : Type 0 where
  pub p : W → List ℕ
  pub move : List ℕ → W → W
  pub moved : (q : List ℕ) (w : W) → p (move q w) ≡ q

module _ {W : Type 0} (at : Pointer W) where
  abbrev pub move_to : List ℕ → Shell W → Shell W
  move_to q s = record s { world = at.move q s.world }

  -- The loop of shell_boot_script, with the number of rounds for fuel; none if they are not enough.
  unfoldable pub boot_from : ℕ → List ℕ → Shell W → Option (Shell W)
  boot_from zero start s = none
  boot_from (suc rounds) start s =
      let (cmd, rest) = build_init_readcmd sh_max_line_len start (at.p s.world) in
      elim (is_empty cmd) [
        | true ↦ some (load [] (move_to rest s))
        | false ↦ boot_from rounds start (run_cmd cmd (move_to rest s))
      ]

  unfoldable pub shell_boot_script : List ℕ → Shell W → Option (Shell W)
  shell_boot_script start s = boot_from (suc (length start)) start s
