-- ===== src/Shell/Commands/Lookup.antt =====
-- Which command a line runs, of _shell_exec of shell/shell.c.
use mathlib.Core.Path.{subst}
use wrpc_sw.Prelude.{
  Bool-cases, ℕ, ◌≡◌, ◌≢◌, refl, ap, ◌⊎◌, inl, inr, true, false, none, some, List, [], ◌∷◌, ◌++◌,
  map, arith,
}
use wrpc_sw.Prelude.Int.{ℤ, pos, eqb_ℤ}
use wrpc_sw.Util.Number.{tolower, strcasecmp}
use wrpc_sw.Util.Number.Names.{NoZero, strcasecmp-cases}
use wrpc_sw.Shell.Commands.{Command, AllCommands, find_command}

eqb_yes : (a : ℤ) → a ≡ pos 0 → eqb_ℤ a (pos 0) ≡ true
eqb_yes a e = rw e refl

eqb_no : (a : ℤ) → a ≢ pos 0 → eqb_ℤ a (pos 0) ≡ false
eqb_no a h = ground (arith, h)

module _ {W : Type 0} where
  abbrev pub AllNamed : List (Command W) → Type 0
  AllNamed [] = Unit
  AllNamed (p ∷ cmds) = NoZero p.name × AllNamed cmds

  -- No command has the name, whatever the case of its letters.
  abbrev pub Lacks : List (Command W) → List ℕ → Type 0
  Lacks [] tok = Unit
  Lacks (p ∷ cmds) tok = (map tolower p.name ≢ map tolower tok) × Lacks cmds tok

  -- The command that is found is the first of the name, letters in either case being the same, and
  -- none is found only if none has the name.
  pub find_command_lem :
      (cmds : List (Command W)) (tok : List ℕ)
      → AllNamed cmds
      → NoZero tok
      → ((find_command cmds tok ≡ none) × Lacks cmds tok)
        ⊎ ((before : List (Command W)) × (p : Command W) × (after : List (Command W))
            × (find_command cmds tok ≡ some p)
            × (cmds ≡ before ++ (p ∷ after))
            × (map tolower p.name ≡ map tolower tok)
            × Lacks before tok)
  unfolding find_command
  find_command_lem [] tok a t = inl (refl, _)
  find_command_lem (p ∷ cmds) tok (n, a) t = elim (strcasecmp-cases p.name tok n t) [
    | inl (z, same) ↦
        rw (find_command, eqb_yes (strcasecmp p.name tok) z)
          (inr ([], p, cmds, refl, refl, same, _))
    | inr (z, differ) ↦
        rw (find_command, eqb_no (strcasecmp p.name tok) z)
          (elim (find_command_lem cmds tok a t) [
            | inl (e, l) ↦ inl (e, (differ, l))
            | inr (before, q, after, e, f, same, l) ↦
                inr (p ∷ before, q, after, e, ap (λ cs. p ∷ cs) f, same, (differ, l))
          ])
  ]

  -- What holds of all commands holds of the one that is found.
  pub find_command-AllCommands :
      (P : Command W → Type 0) (cmds : List (Command W)) (tok : List ℕ) (p : Command W)
      → AllCommands P cmds
      → find_command cmds tok ≡ some p
      → P p
  unfolding find_command
  find_command-AllCommands P [] tok p a e = absurd (cc e)
  find_command-AllCommands P (c ∷ cmds) tok p a e =
      elim (Bool-cases (eqb_ℤ (strcasecmp c.name tok) (pos 0))) [
        | inl f ↦ let same : c ≡ p = ground (arith, e, f) in subst P same a.0
        | inr f ↦ find_command-AllCommands P cmds tok p a.1 (ground (arith, e, f))
      ]
