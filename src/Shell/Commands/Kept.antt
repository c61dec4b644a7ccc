-- ===== src/Shell/Commands/Kept.antt =====
-- What a command line that shell_exec of shell/shell.c runs leaves as it is.
use wrpc_sw.Prelude.{ℕ, ◌≡◌, refl, none, List, [], ◌∷◌, Bool-cases, Option-cases, inl, inr}
use wrpc_sw.Shell.Line.{Line}
use wrpc_sw.Shell.Args.{args_of}
use wrpc_sw.Shell.Commands.{
  Outcome, Command, Shell, AllCommands, is_comment, find_command, shell_activate_ui_command, finish,
  run_args, exec_line, shell_exec,
}
use wrpc_sw.Shell.Commands.Lookup.{find_command-AllCommands}

module _ {W X : Type 0} (f : W → X) where
  -- The command does not change this part of the program's state.
  abbrev pub Keeps : Command W → Type 0
  Keeps p = (args : List (List ℕ)) (l : Line) (w : W) → f (p.exec args l w).world ≡ f w

  -- The same commands, and this part of the state as it was.
  abbrev pub Same : Shell W → Shell W → Type 0
  Same s r = (r.cmds ≡ s.cmds) × (f r.world ≡ f s.world)

  Same-finish : (o : Outcome W) (s : Shell W) → f o.world ≡ f s.world → Same s (finish o s).1
  unfolding shell_activate_ui_command
  Same-finish o s k = elim (Option-cases o.activated) [
    | inl e ↦ rw e (refl, k)
    | inr (callback, e) ↦ rw e (refl, k)
  ]

  Same-run_args :
      (args : List (List ℕ)) (s : Shell W) → AllCommands Keeps s.cmds → Same s (run_args args s).1
  unfolding run_args
  Same-run_args [] s a = (refl, refl)
  Same-run_args (tok ∷ args) s a = elim (Bool-cases (is_comment tok)) [
    | inl e ↦ rw e (refl, refl)
    | inr e ↦ rw e (elim (Option-cases (find_command s.cmds tok)) [
      | inl g ↦ rw g (refl, refl)
      | inr (p, g) ↦ rw g (
          Same-finish (p.exec args s.line s.world) s
            (find_command-AllCommands Keeps s.cmds tok p a g args s.line s.world))
    ])
  ]

  pub Same-shell_exec : (s : Shell W) → AllCommands Keeps s.cmds → Same s (shell_exec none s).1
  unfolding shell_exec exec_line
  Same-shell_exec s a = Same-run_args (args_of s.line.cmd_buf) _ a
