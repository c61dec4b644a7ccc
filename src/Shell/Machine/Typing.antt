-- ===== src/Shell/Machine/Typing.antt =====
-- A command line that is typed and entered is run with its words, of shell/shell.c.
pub mod Runs
use wrpc_sw.Prelude.{
  ℕ, zero, suc, ◌+◌, ◌-◌, ◌%◌, ◌^◌, ◌≤◌, ◌<◌, ◌≡◌, refl, sym, ap, ap₂, ◌∙◌, ◌⊎◌, inl, inr, Bool,
  true, false, not, ◌&&◌, ◌||◌, Option, none, some, List, [], ◌∷◌, ◌++◌, map, take, drop, set,
  length, bit_and, bit_or, ◌==◌, ltb, leb, if◌then◌else◌, arith, Bool-cases, ==_iff, min,
  length-append, replicate,
}
use mathlib.Core.Path.{subst}
use mathlib.Core.List.{append_assoc, append-nil}
use wrpc_sw.Prelude.Int.{ℤ, pos}
use wrpc_sw.Shell.Line.{
  Line, edit, escape_flag, key_left, key_right, key_delete, key_backspace, key_enter, key_enter10,
  sh_max_line_len,
}
use wrpc_sw.Shell.Line.Buffer.{insert_at}
use wrpc_sw.Shell.Line.Cursor.{IsLine, view, edit_text, edit_lem}
use wrpc_sw.Shell.Args.{args_of, sh_max_args}
use wrpc_sw.Shell.Args.Words.{
  IsLetter, AllLetters, NoEnd, Spaced, word, AllWords, line_of, args_of-line_of,
}
use wrpc_sw.Shell.Commands.{
  State, sh_prompt, sh_input, sh_exec, sh_exec_ui, Shell, Command, run_args, exec_line,
}
use wrpc_sw.Shell.Machine.{join_key, on_key, on_input, end_line, step, shell_interactive}
use wrpc_sw.Shell.Machine.Invariant.{all_below, all_below_lem, and_parts}

-- A character that is itself put into the line.
abbrev pub is_plain : ℕ → Bool
is_plain c = not (
    (c == 0)
    || ((c == 27)
        || ((c == key_enter)
            || ((c == key_enter10)
                || ((c == key_delete) || ((c == key_backspace) || (c == b'\t')))))))

abbrev pub IsPlain : ℕ → Type 0
IsPlain c = (c < 256) × (is_plain c ≡ true)

abbrev is_own_key : ℕ → Bool
is_own_key c =
    not (is_plain c)
    || ((join_key 0 c == c) && (not (bit_and c 0xff == 0) && (bit_and c escape_flag == 0)))

own_key_all : all_below is_own_key 256 ≡ true
own_key_all = refl

negated : (b : Bool) → not b ≡ true → b ≡ false
negated true e = absurd (cc e)
negated false e = refl

eq_of : (a b : ℕ) → a == b ≡ true → a ≡ b
eq_of a b e = ground (arith, e)

own_key_parts :
    (b : Bool) (c : ℕ)
    → b ≡ true
    → not b || ((join_key 0 c == c) && (not (bit_and c 0xff == 0) && (bit_and c escape_flag == 0)))
      ≡ true
    → (join_key 0 c ≡ c) × (bit_and c 0xff == 0 ≡ false) × (bit_and c escape_flag == 0 ≡ true)
own_key_parts true c p e =
    let (same, rest) =
      and_parts (join_key 0 c == c) (not (bit_and c 0xff == 0) && (bit_and c escape_flag == 0)) e in
    let (low, flag) = and_parts (not (bit_and c 0xff == 0)) (bit_and c escape_flag == 0) rest in
    (eq_of (join_key 0 c) c same, negated (bit_and c 0xff == 0) low, flag)
own_key_parts false c p e = absurd (cc p)

-- Alone it is a complete key, without the escape flag.
own_key :
    (c : ℕ)
    → IsPlain c
    → (join_key 0 c ≡ c) × (bit_and c 0xff == 0 ≡ false) × (bit_and c escape_flag == 0 ≡ true)
own_key c (h, p) =
    let e : is_own_key c ≡ true = all_below_lem is_own_key 256 c own_key_all h in
    own_key_parts (is_plain c) c p e

insert_at_end : (u : List ℕ) (c : ℕ) → insert_at (length u) c u ≡ u ++ (c ∷ [])
insert_at_end [] c = refl
insert_at_end (x ∷ u) c = ap (λ t. x ∷ t) (insert_at_end u c)

edit_text_plain :
    (c : ℕ) (u : List ℕ)
    → IsPlain c
    → length u < sh_max_line_len
    → edit_text c (u, length u) ≡ (u ++ (c ∷ []), suc (length u))
edit_text_plain c u (h, p) r =
    let left : c == key_left ≡ false = ground (arith, p) in
    let right : c == key_right ≡ false = ground (arith, p) in
    let del : c == key_delete ≡ false = ground (arith, p) in
    let back : c == key_backspace ≡ false = ground (arith, p) in
    let tab : c == b'\t' ≡ false = ground (arith, p) in
    let room : ltb (length u) sh_max_line_len ≡ true = ground arith in
    let byte : c % 256 ≡ c = omega arith in
    let (a, b, flag) = own_key c (h, p) in
    rw (left, right, del, back, tab, flag, room, byte)
      (ap (λ t. (t, suc (length u))) (insert_at_end u c))

abbrev pub AllPlain : List ℕ → Type 0
AllPlain [] = Unit
AllPlain (c ∷ t) = IsPlain c × AllPlain t

module _ {W : Type 0} where
  on_input_plain :
      (c : ℕ) (s : Shell W)
      → IsPlain c
      → s.current_key ≡ 0
      → on_input c s ≡ record s { line = edit c s.line; current_key = 0 }
  unfolding on_input on_key
  on_input_plain c s p k =
      let (same, low, flag) = own_key c p in
      let e : join_key s.current_key c ≡ c = ap (λ j. join_key j c) k ∙ same in
      let entered : (c == key_enter) || (c == key_enter10) ≡ false = ground (arith, p.1) in
      rw (e, low, entered) refl

  on_input_enter :
      (s : Shell W)
      → s.current_key ≡ 0
      → on_input key_enter s ≡ record s { state = sh_exec; current_key = 0 }
  unfolding on_input on_key
  on_input_enter s k =
      let e : join_key s.current_key key_enter ≡ key_enter = ap (λ j. join_key j key_enter) k in
      rw e refl

  -- The characters one after the other, each in one step.
  abbrev pub types : (W → W) → List ℕ → Shell W → Shell W
  types redraw_gui [] s = s
  types redraw_gui (c ∷ t) s = types redraw_gui t (shell_interactive redraw_gui (some c) s).1

  -- The text u is typed in, with the cursor at its end, and nothing else has happened to s0.
  pub record Typed (s0 s : Shell W) (u : List ℕ) : Type 0 where
    pub state_is : s.state ≡ sh_input
    pub key_is : s.current_key ≡ 0
    pub line_is : IsLine s.line
    pub view_is : view s.line ≡ (u, length u)
    pub cmds_is : s.cmds ≡ s0.cmds
    pub world_is : s.world ≡ s0.world

  step_input :
      (redraw_gui : W → W) (c : ℕ) (s : Shell W)
      → s.state ≡ sh_input
      → (shell_interactive redraw_gui (some c) s).1 ≡ on_input c s
  unfolding shell_interactive
  step_input redraw_gui c s e = ap (λ st. (step redraw_gui st (some c) s).1) e

  Typed-one :
      (redraw_gui : W → W) (c : ℕ) (s0 s : Shell W) (u : List ℕ)
      → IsPlain c
      → length u < sh_max_line_len
      → Typed s0 s u
      → Typed s0 (shell_interactive redraw_gui (some c) s).1 (u ++ (c ∷ []))
  Typed-one redraw_gui c s0 s u p r w =
      let (line, shown) = edit_lem c s.line w.line_is in
      let grown : suc (length u) ≡ length (u ++ (c ∷ [])) =
        omega (arith, length-append u (c ∷ [])) in
      subst (λ t. Typed s0 t (u ++ (c ∷ [])))
        (sym (step_input redraw_gui c s w.state_is ∙ on_input_plain c s p w.key_is))
        record {
          state_is = w.state_is;
          key_is = refl;
          line_is = line;
          view_is =
              shown
              ∙ ap (edit_text c) w.view_is
              ∙ edit_text_plain c u p r
              ∙ ap (λ n. (u ++ (c ∷ []), n)) grown;
          cmds_is = w.cmds_is;
          world_is = w.world_is;
        }

  Typed-types :
      (redraw_gui : W → W) (t : List ℕ) (s0 s : Shell W) (u : List ℕ)
      → AllPlain t
      → length u + length t ≤ sh_max_line_len
      → Typed s0 s u
      → Typed s0 (types redraw_gui t s) (u ++ t)
  Typed-types redraw_gui [] s0 s u a r w = rw (append-nil u) w
  Typed-types redraw_gui (c ∷ t) s0 s u (p, a) r w =
      subst (Typed s0 (types redraw_gui (c ∷ t) s)) (append_assoc u (c ∷ []) t) (
        Typed-types redraw_gui t s0 (shell_interactive redraw_gui (some c) s).1 (u ++ (c ∷ [])) a
          (omega (arith, length-append u (c ∷ [])))
          (Typed-one redraw_gui c s0 s u p (omega arith) w))

  -- From the prompt: the prompt itself, the characters, Enter.
  abbrev pub enters : (W → W) → List ℕ → Shell W → Shell W
  enters redraw_gui t s =
      let prompted = (shell_interactive redraw_gui none s).1 in
      (shell_interactive redraw_gui (some key_enter) (types redraw_gui t prompted)).1

  prompted :
      (redraw_gui : W → W) (s : Shell W)
      → s.state ≡ sh_prompt
      → (shell_interactive redraw_gui none s).1
        ≡ record s { line = record s.line { cmd_pos = 0; cmd_len = 0 }; state = sh_input }
  unfolding shell_interactive
  prompted redraw_gui s e = ap (λ st. (step redraw_gui st none s).1) e

  -- What Enter leaves of the text that was typed.
  pub record Entered (s0 s : Shell W) (t : List ℕ) : Type 0 where
    pub state_is : s.state ≡ sh_exec
    pub line_is : IsLine s.line
    pub view_is : view s.line ≡ (t, length t)
    pub cmds_is : s.cmds ≡ s0.cmds
    pub world_is : s.world ≡ s0.world

  -- From the prompt, a text of at most 80 characters that stand for themselves is, after Enter, the
  -- line that will be run, and nothing was run yet.
  pub enters_lem :
      (redraw_gui : W → W) (t : List ℕ) (s : Shell W)
      → s.state ≡ sh_prompt
      → s.current_key ≡ 0
      → length s.line.cmd_buf ≡ suc sh_max_line_len
      → AllPlain t
      → length t ≤ sh_max_line_len
      → Entered s (enters redraw_gui t s) t
  enters_lem redraw_gui t s e k size a h =
      let start : Typed s (shell_interactive redraw_gui none s).1 [] =
        subst (λ x. Typed s x []) (sym (prompted redraw_gui s e))
          record {
            state_is = refl;
            key_is = k;
            line_is = record { size = size; pos_in = omega arith; len_in = omega arith };
            view_is = refl;
            cmds_is = refl;
            world_is = refl;
          } in
      let w =
        Typed-types redraw_gui t s (shell_interactive redraw_gui none s).1 [] a (omega arith)
          start in
      let typed = types redraw_gui t (shell_interactive redraw_gui none s).1 in
      subst (λ x. Entered s x t)
        (sym (step_input redraw_gui key_enter typed w.state_is ∙ on_input_enter typed w.key_is))
        record {
          state_is = refl;
          line_is = w.line_is;
          view_is = w.view_is;
          cmds_is = w.cmds_is;
          world_is = w.world_is;
        }
