-- ===== src/Shell/Machine.antt =====
-- shell_interactive of shell/shell.c, one step of the shell. What console_getc returns is an
-- argument, none for a negative value; it is read only while a line is typed or a callback runs.
-- redraw_gui, of another file, is a parameter.
pub mod Invariant
pub mod Typing
pub mod Remote
use wrpc_sw.Prelude.{
  ℕ, suc, ◌+◌, ◌%◌, ◌^◌, Bool, true, false, not, ◌&&◌, ◌||◌, Option, none, some, List, [], ◌∷◌, set,
  bit_and, bit_or, ◌==◌, if◌then◌else◌,
}
use wrpc_sw.Prelude.Int.{ℤ, pos, ltb_ℤ}
use wrpc_sw.Shell.Line.{Line, edit, escape_flag, key_enter, key_enter10}
use wrpc_sw.Shell.Commands.{
  State, sh_prompt, sh_input, sh_exec, sh_exec_ui, Callback, Outcome, Command, Shell, exec_line,
  with_buf,
}

-- current_key after a character: a complete key has a value in its low byte.
abbrev pub join_key : ℕ → ℕ → ℕ
join_key key c =
    if (c == 27) || (not (bit_and key escape_flag == 0) && (c == b'['))
    then escape_flag
    else bit_or key c % 2 ^ 16

abbrev pub is_ui : State → Bool
is_ui sh_exec_ui = true
is_ui _ = false

abbrev pub is_char : ℕ → Option ℕ → Bool
is_char k none = false
is_char k (some c) = c == k

module _ {W : Type 0} where
  -- The switch on a complete key.
  unfoldable pub on_key : ℕ → Shell W → Shell W
  on_key key s =
      if (key == key_enter) || (key == key_enter10)
      then record s { state = sh_exec }
      else record s { line = edit key s.line }

  unfoldable pub on_input : ℕ → Shell W → Shell W
  on_input c s =
      let key = join_key s.current_key c in
      if bit_and key 0xff == 0
      then record s { current_key = key }
      else record (on_key key s) { current_key = 0 }

  -- cmd_buf[cmd_len] = 0
  abbrev pub end_line : Shell W → Shell W
  end_line s = with_buf (set s.line.cmd_buf s.line.cmd_len 0) s

  unfoldable pub on_exec : Shell W → Shell W
  on_exec s =
      let (rv, ran) = exec_line (end_line s) in
      if is_ui ran.state then ran else record ran { state = sh_prompt }

  -- The callback, if there is one: whether it asks to stop, and what it leaves.
  abbrev pub call_back : Option (Callback W) → W → Bool × W
  call_back none world = (true, world)
  call_back (some callback) world = let (rv, after) = callback world in (ltb_ℤ rv (pos 0), after)

  unfoldable pub on_ui : (W → W) → Option ℕ → Shell W → Shell W
  on_ui redraw_gui c s =
      let drawn = if is_char b'r' c then redraw_gui s.world else s.world in
      let (stop, world) = call_back s.ui_callback drawn in
      let called = record s { world = world } in
      if stop || (is_char 27 c || is_char b'q' c)
      then record (end_line called) { state = sh_prompt }
      else called

  -- The switch on the state.
  abbrev pub step : (W → W) → State → Option ℕ → Shell W → ℕ × Shell W
  step redraw_gui sh_prompt c s =
      (1, record s { line = record s.line { cmd_pos = 0; cmd_len = 0 }; state = sh_input })
  step redraw_gui sh_input none s = (0, s)
  step redraw_gui sh_input (some ch) s = (1, on_input ch s)
  step redraw_gui sh_exec c s = (1, on_exec s)
  step redraw_gui sh_exec_ui c s = (1, on_ui redraw_gui c s)

  unfoldable pub shell_interactive : (W → W) → Option ℕ → Shell W → ℕ × Shell W
  shell_interactive redraw_gui c s = step redraw_gui s.state c s
