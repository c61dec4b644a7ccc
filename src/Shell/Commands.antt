-- ===== src/Shell/Commands.antt =====
-- The state of the shell and the execution of a command line, of shell/shell.c. W is the state of the
-- rest of the program, which commands and callbacks read and change. A command may also start a
-- callback by shell_activate_ui_command, which its outcome says, and change the line, as `init boot` of
-- shell/cmd_init.c does, which runs the boot scripts. Printing is not part of the model.
pub mod Kept
pub mod Lookup
use wrpc_sw.Prelude.{
  ℕ, zero, suc, ◌+◌, ◌-◌, ◌≤◌, ◌≡◌, Bool, true, false, Option, none, some, List, [], ◌∷◌, ◌++◌, map,
  take, drop, set, length, replicate, leb, ◌==◌, if◌then◌else◌,
}
use wrpc_sw.Prelude.Int.{ℤ, pos, negsuc, eqb_ℤ}
use wrpc_sw.Util.Number.{strcasecmp}
use wrpc_sw.Shell.Line.{Line, sh_max_line_len}
use wrpc_sw.Shell.Args.{sh_max_args, scan_args, text, args_of}

abbrev pub shell_max_commands : ℕ
shell_max_commands = 40

pub data State : Type 0 where
  sh_prompt : State
  sh_input : State
  sh_exec : State
  sh_exec_ui : State

module _ (W : Type 0) where
  -- A callback's value and the state it leaves.
  abbrev pub Callback : Type 0
  Callback = W → ℤ × W

  pub record Outcome : Type 0 where
    pub rv : ℤ
    pub activated : Option Callback
    pub line : Line
    pub world : W

  -- wrc_shell_cmd
  pub record Command : Type 0 where
    pub name : List ℕ
    pub exec : List (List ℕ) → Line → W → Outcome

  pub record Shell : Type 0 where
    pub line : Line
    pub state : State
    pub current_key : ℕ
    pub cmds : List Command
    pub is_interacting : Bool
    pub ui_callback : Option Callback
    pub world : W

abbrev pub is_comment : List ℕ → Bool
is_comment [] = false
is_comment (c ∷ tok) = c == b'#'

-- -EINVAL
abbrev pub einval : ℤ
einval = negsuc 21

-- strncpy, which fills up with zeros.
abbrev pub strncpy : List ℕ → List ℕ → ℕ → List ℕ
strncpy dest src n = take n (src ++ replicate n 0) ++ drop n dest

module _ {W : Type 0} where
  -- The first command of that name, in the order of registration.
  unfoldable pub find_command : List (Command W) → List ℕ → Option (Command W)
  find_command [] tok = none
  find_command (p ∷ cmds) tok = elim (eqb_ℤ (strcasecmp p.name tok) (pos 0)) [
    | true ↦ some p
    | false ↦ find_command cmds tok
  ]

  unfoldable pub shell_register_command : Command W → Shell W → Shell W
  shell_register_command cmd s =
      if leb shell_max_commands (length s.cmds) then s else record s { cmds = s.cmds ++ (cmd ∷ []) }

  unfoldable pub shell_activate_ui_command : Callback W → Shell W → Shell W
  shell_activate_ui_command callback s = record s {
    ui_callback = some callback;
    state = sh_exec_ui;
    line = record s.line { cmd_len = 0 };
  }

  -- What a command's run leaves in the shell.
  abbrev pub finish : Outcome W → Shell W → ℤ × Shell W
  finish o s =
      let left = record s { line = o.line; world = o.world } in
      elim o.activated [
        | none ↦ (o.rv, left)
        | some callback ↦ (o.rv, shell_activate_ui_command callback left)
      ]

  -- The lookup and the call, on the arguments of the line.
  unfoldable pub run_args : List (List ℕ) → Shell W → ℤ × Shell W
  run_args [] s = (pos 0, s)
  run_args (tok ∷ args) s = if is_comment tok then (pos 0, s) else elim (find_command s.cmds tok) [
    | none ↦ (einval, s)
    | some p ↦ finish (p.exec args s.line s.world) s
  ]

  abbrev pub with_buf : List ℕ → Shell W → Shell W
  with_buf buf s = record s { line = record s.line { cmd_buf = buf } }

  -- _shell_exec
  unfoldable pub exec_line : Shell W → ℤ × Shell W
  exec_line s =
      let (buf, tokptr) = scan_args false sh_max_args 0 s.line.cmd_buf in
      run_args (args_of s.line.cmd_buf) (with_buf buf s)

  -- The text in cmd_buf becomes cmd, if one is given: with none it is run as it stands.
  unfoldable pub shell_exec : Option (List ℕ) → Shell W → ℤ × Shell W
  shell_exec cmd s =
      let buf : List ℕ = elim cmd [
        | none ↦ s.line.cmd_buf
        | some t ↦ strncpy s.line.cmd_buf t sh_max_line_len
      ] in
      let started = record s {
        line = record s.line { cmd_buf = buf; cmd_len = length (text buf) };
        is_interacting = true;
      } in
      let (i, ran) = exec_line started in
      let done = record ran { is_interacting = false } in
      (i, with_buf (set done.line.cmd_buf 0 0) done)

  unfoldable pub shell_init : Shell W → Shell W
  shell_init s = record s {
    line = record s.line { cmd_pos = 0; cmd_len = 0 };
    state = sh_prompt;
    ui_callback = none;
  }

  abbrev pub AllCommands : (Command W → Type 0) → List (Command W) → Type 0
  AllCommands P [] = Unit
  AllCommands P (p ∷ cmds) = P p × AllCommands P cmds

  -- The command leaves the line alone.
  abbrev pub LeavesLine : Command W → Type 0
  LeavesLine p = (args : List (List ℕ)) (l : Line) (w : W) → (p.exec args l w).line ≡ l

  abbrev pub AllLeaveLine : List (Command W) → Type 0
  AllLeaveLine cmds = AllCommands LeavesLine cmds
