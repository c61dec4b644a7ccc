-- ===== src/Shell/Machine/Typing/Runs.antt =====
-- The step of shell/shell.c that follows Enter runs the words of the line.
use wrpc_sw.Prelude.{
  ℕ, zero, suc, ◌≤◌, ◌<◌, ◌≡◌, refl, ap, ◌∙◌, ◌⊎◌, false, List, [], ◌∷◌, ◌++◌, map, take, drop, set,
  length, arith, replicate,
}
use mathlib.Core.List.{append_assoc}
use wrpc_sw.Shell.Line.{sh_max_line_len}
use wrpc_sw.Shell.Args.{args_of, sh_max_args, scan_args}
use wrpc_sw.Shell.Args.Words.{
  IsLetter, AllLetters, NoEnd, Spaced, word, AllWords, line_of, args_of-line_of,
}
use wrpc_sw.Shell.Commands.{sh_prompt, sh_exec, Shell, run_args, exec_line, with_buf}
use wrpc_sw.Shell.Machine.{end_line}
use wrpc_sw.Shell.Machine.Typing.{AllPlain, enters, enters_lem}

set-cut :
    (buf : List ℕ) (n v : ℕ) → n < length buf → set buf n v ≡ take n buf ++ (v ∷ drop (suc n) buf)
set-cut [] n v h = absurd (omega (arith, h))
set-cut (x ∷ buf) zero v h = refl
set-cut (x ∷ buf) (suc n) v h = ap (λ t. x ∷ t) (set-cut buf n v (omega arith))

line_of-append :
    (ws : List Spaced) (end rest : List ℕ) → line_of ws end ++ rest ≡ line_of ws (end ++ rest)
line_of-append [] end rest = refl
line_of-append (w ∷ ws) end rest =
    append_assoc (word w) (b' ' ∷ (replicate w.gap b' ' ++ line_of ws end)) rest
    ∙ ap (λ t. word w ++ (b' ' ∷ t))
        (append_assoc (replicate w.gap b' ') (line_of ws end) rest
          ∙ ap (λ t. replicate w.gap b' ' ++ t) (line_of-append ws end rest))

module _ {W : Type 0} where
  -- A line of at most eight words that is typed at the prompt, with spaces before and between the
  -- words, and entered: the next step looks up and runs these words, with nothing but the buffer
  -- changed. From the eighth word on, the rest of the line is one argument.
  pub enters-runs :
      (redraw_gui : W → W) (s : Shell W) (g : ℕ) (ws : List Spaced) (c : ℕ) (last : List ℕ)
      → s.state ≡ sh_prompt
      → s.current_key ≡ 0
      → length s.line.cmd_buf ≡ suc sh_max_line_len
      → AllPlain (replicate g b' ' ++ line_of ws (c ∷ last))
      → length (replicate g b' ' ++ line_of ws (c ∷ last)) ≤ sh_max_line_len
      → AllWords ws
      → length ws < sh_max_args
      → IsLetter c
      → NoEnd last
      → (suc (length ws) ≡ sh_max_args) ⊎ AllLetters last
      → let entered = enters redraw_gui (replicate g b' ' ++ line_of ws (c ∷ last)) s in
        (entered.state ≡ sh_exec)
        × (entered.cmds ≡ s.cmds)
        × (entered.world ≡ s.world)
        × ((buf : List ℕ) × (exec_line (end_line entered)
              ≡ run_args (map word ws ++ ((c ∷ last) ∷ [])) (with_buf buf entered)))
  unfolding exec_line
  enters-runs redraw_gui s g ws c last e k size a h aw lw l n q =
      let t = replicate g b' ' ++ line_of ws (c ∷ last) in
      let w = enters_lem redraw_gui t s e k size a h in
      let entered = enters redraw_gui t s in
      let stale = drop (suc entered.line.cmd_len) entered.line.cmd_buf in
      let cut : set entered.line.cmd_buf entered.line.cmd_len 0
          ≡ replicate g b' ' ++ line_of ws ((c ∷ last) ++ (0 ∷ stale)) =
        set-cut entered.line.cmd_buf entered.line.cmd_len 0
          (omega (arith, w.line_is.size, w.line_is.len_in))
        ∙ ap (λ u. u ++ (0 ∷ stale)) (ap (λ v. v.0) w.view_is)
        ∙ append_assoc (replicate g b' ') (line_of ws (c ∷ last)) (0 ∷ stale)
        ∙ ap (λ u. replicate g b' ' ++ u) (line_of-append ws (c ∷ last) (0 ∷ stale)) in
      (
        w.state_is,
        w.cmds_is,
        w.world_is,
        (
          (scan_args false sh_max_args 0 (end_line entered).line.cmd_buf).0,
          ap
              (λ args. run_args args (
                with_buf (scan_args false sh_max_args 0 (end_line entered).line.cmd_buf).0 entered))
              (ap args_of cut ∙ args_of-line_of g ws c last stale aw lw l n q),
        ),
      )
