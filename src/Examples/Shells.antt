-- ===== src/Examples/Shells.antt =====
-- The shell at concrete lines and keys.
use wrpc_sw.Prelude.{
  ℕ, ◌+◌, ◌≤◌, ◌≡◌, refl, inr, ◌≢◌, false, none, List, [], ◌∷◌, ◌++◌, replicate, length, arith,
}
use wrpc_sw.Prelude.Int.{pos}
use wrpc_sw.Shell.Line.{Line, edit, key_backspace}
use wrpc_sw.Shell.Line.Cursor.{IsLine, view, edit_text, edit_lem}
use wrpc_sw.Shell.Args.{args_of}
use wrpc_sw.Shell.Args.Words.{Spaced, line_of, args_of-line_of}
use wrpc_sw.Shell.Commands.{
  sh_prompt, sh_input, sh_exec, Command, Shell, run_args, exec_line, with_buf,
}
use wrpc_sw.Shell.Machine.{end_line}
use wrpc_sw.Shell.Machine.Typing.{enters}
use wrpc_sw.Shell.Machine.Typing.Runs.{enters-runs}
use wrpc_sw.Shell.Script.{Pointer}
use wrpc_sw.Shell.Script.Boot.{script}

-- The rest of the program is the number of times that a command ran.
abbrev help : Command ℕ
help = record {
  name = (b'h' ∷ b'e' ∷ b'l' ∷ b'p' ∷ []);
  exec =
      λ args. λ l. λ w. record { rv = pos 0; activated = none; line = l; world = w + length args };
}

abbrev prompt : Shell ℕ
prompt = record {
  line = record { cmd_buf = replicate 81 0; cmd_pos = 0; cmd_len = 0 };
  state = sh_prompt;
  current_key = 0;
  cmds = help ∷ [];
  is_interacting = false;
  ui_callback = none;
  world = 0;
}

byte_nonzero : (n : ℕ) → 1 ≤ n → n ≢ 0
byte_nonzero n h e = absurd (omega (arith, h, e))

-- The line "abc" with the cursor on its last letter.
abbrev abc : Line
abc = record { cmd_buf = (b'a' ∷ b'b' ∷ b'c' ∷ []) ++ replicate 78 0; cmd_pos = 2; cmd_len = 3 }

abc-IsLine : IsLine abc
abc-IsLine = record { size = refl; pos_in = omega arith; len_in = omega arith }

abbrev typing : Shell ℕ
typing = record prompt { line = abc; state = sh_input }

abbrev idle : ℕ → ℕ
idle w = w

abbrev first_word : Spaced
first_word = record { head = b'H'; tail = (b'e' ∷ b'l' ∷ b'p' ∷ []); gap = 1 }

edit_lem_example :
    IsLine (edit key_backspace abc)
    × (view (edit key_backspace abc) ≡ edit_text key_backspace (view abc))
edit_lem_example = edit_lem key_backspace abc abc-IsLine

args_of-line_of_example :
    args_of (replicate 1 b' ' ++ line_of (first_word ∷ []) ((b'x' ∷ b'y' ∷ []) ++ 0 ∷ 7 ∷ []))
    ≡ (b'H' ∷ b'e' ∷ b'l' ∷ b'p' ∷ []) ∷ (b'x' ∷ b'y' ∷ []) ∷ []
args_of-line_of_example =
    args_of-line_of 1 (first_word ∷ []) b'x' (b'y' ∷ []) (7 ∷ [])
      (((refl, refl), ((refl, refl), ((refl, refl), ((refl, refl), _)))), _) (omega arith)
      (refl, refl) (refl, _) (inr ((refl, refl), _))

enters-runs_example :
    let entered =
      enters idle (replicate 1 b' ' ++ line_of (first_word ∷ []) (b'x' ∷ b'y' ∷ [])) prompt in
    (entered.state ≡ sh_exec)
    × (entered.cmds ≡ help ∷ [])
    × (entered.world ≡ 0)
    × ((buf : List ℕ) × (exec_line (end_line entered)
          ≡ run_args
              ((b'H' ∷ b'e' ∷ b'l' ∷ b'p' ∷ []) ∷ (b'x' ∷ b'y' ∷ []) ∷ [])
              (with_buf buf entered)))
enters-runs_example =
    enters-runs idle prompt 1 (first_word ∷ []) b'x' (b'y' ∷ []) refl refl refl
      (
        (omega arith, refl),
        (
          (omega arith, refl),
          (
            (omega arith, refl),
            (
              (omega arith, refl),
              (
                (omega arith, refl),
                (
                  (omega arith, refl),
                  ((omega arith, refl), ((omega arith, refl), ((omega arith, refl), _))),
                ),
              ),
            ),
          ),
        ),
      )
      (omega arith) (((refl, refl), ((refl, refl), ((refl, refl), ((refl, refl), _)))), _)
      (omega arith) (refl, refl) (refl, _) (inr ((refl, refl), _))

-- The state is the pointer and the number of arguments.
abbrev pointer : Pointer (List ℕ × ℕ)
pointer = record { p = λ w. w.0; move = λ q w. (q, w.1); moved = λ q w. refl }

abbrev count_args : Command (List ℕ × ℕ)
count_args = record {
  name = (b'h' ∷ b'e' ∷ b'l' ∷ b'p' ∷ []);
  exec = λ args.
      λ l. λ w. record { rv = pos 0; activated = none; line = l; world = (w.0, w.1 + length args) };
}

abbrev help_cmd : List ℕ
help_cmd = b'h' ∷ b'e' ∷ b'l' ∷ b'p' ∷ []

abbrev help_x : List ℕ
help_x = b'h' ∷ b'e' ∷ b'l' ∷ b'p' ∷ b' ' ∷ b'x' ∷ []

abbrev booting : Shell (List ℕ × ℕ)
booting = record {
  line = record { cmd_buf = replicate 81 0; cmd_pos = 0; cmd_len = 0 };
  state = sh_prompt;
  current_key = 0;
  cmds = count_args ∷ [];
  is_interacting = false;
  ui_callback = none;
  world = (script (help_cmd ∷ []) help_x, 0);
}
