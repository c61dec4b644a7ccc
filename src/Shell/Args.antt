-- ===== src/Shell/Args.antt =====
-- The arguments of a command line, of _shell_exec of shell/shell.c. The C loop walks an index i along
-- cmd_buf; here the rest of the buffer is walked, and i is carried along for the pointers.
pub mod Words
use wrpc_sw.Prelude.{
  ℕ, zero, suc, ◌+◌, Bool, true, false, List, [], ◌∷◌, map, drop, ◌==◌, if◌then◌else◌,
}

abbrev pub sh_max_args : ℕ
sh_max_args = 8

abbrev pub put : ℕ → List ℕ × List ℕ → List ℕ × List ℕ
put c (buf, tokptr) = (c ∷ buf, tokptr)

abbrev pub point : ℕ → List ℕ × List ℕ → List ℕ × List ℕ
point i (buf, tokptr) = (buf, i ∷ tokptr)

-- The rest of the buffer with 0 in place of the spaces before an argument, and the offsets where the
-- arguments start. `inside` is true while the loop skips an argument, `free` is SH_MAX_ARGS - n.
unfoldable pub scan_args : Bool → ℕ → ℕ → List ℕ → List ℕ × List ℕ
scan_args inside zero i buf = (buf, [])
scan_args inside (suc free) i [] = ([], [])
scan_args true (suc free) i (c ∷ buf) = elim (c == b' ') [
  | true ↦ put 0 (scan_args false (suc free) (suc i) buf)
  | false ↦ elim (c == 0) [
    | true ↦ (c ∷ buf, [])
    | false ↦ put c (scan_args true (suc free) (suc i) buf)
  ]
]
scan_args false (suc free) i (c ∷ buf) = elim (c == b' ') [
  | true ↦ put 0 (scan_args false (suc free) (suc i) buf)
  | false ↦ elim (c == 0) [
    | true ↦ (c ∷ buf, [])
    | false ↦ point i (put c (scan_args true free (suc i) buf))
  ]
]

-- The text that a pointer into the buffer gives, up to the first 0.
abbrev pub text : List ℕ → List ℕ
text [] = []
text (c ∷ s) = if c == 0 then [] else c ∷ text s

-- cmd_buf after the loop, and the arguments as texts.
unfoldable pub args_of : List ℕ → List (List ℕ)
args_of cmd_buf =
    let (buf, tokptr) = scan_args false sh_max_args 0 cmd_buf in map (λ p. text (drop p buf)) tokptr
