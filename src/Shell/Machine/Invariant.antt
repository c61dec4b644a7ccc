-- ===== src/Shell/Machine/Invariant.antt =====
-- The shell's state stays well formed, of shell_interactive of shell/shell.c.
use wrpc_sw.Prelude.{
  ℕ, zero, suc, ◌≤◌, ◌<◌, ◌≡◌, refl, ◌⊎◌, inl, inr, Bool, true, false, not, ◌&&◌, ◌||◌, Option,
  none, some, length, bit_and, ◌==◌, arith,
}
use wrpc_sw.Shell.Line.{Line, escape_flag, sh_max_line_len}
use wrpc_sw.Shell.Commands.{State, sh_input, Shell}
use wrpc_sw.Shell.Machine.{join_key}

-- Every number below n passes.
abbrev pub all_below : (ℕ → Bool) → ℕ → Bool
all_below f zero = true
all_below f (suc n) = f n && all_below f n

pub and_parts : (a b : Bool) → a && b ≡ true → (a ≡ true) × (b ≡ true)
and_parts true b e = (refl, e)
and_parts false b e = absurd (cc e)

lt_suc_cases : (k n : ℕ) → k < suc n → (k ≡ n) ⊎ (k < n)
lt_suc_cases k n h = ground arith

pub all_below_lem : (f : ℕ → Bool) (n k : ℕ) → all_below f n ≡ true → k < n → f k ≡ true
all_below_lem f zero k e h = absurd (omega (arith, h))
all_below_lem f (suc n) k e h =
    let (here, below) = and_parts (f n) (all_below f n) e in
    elim (lt_suc_cases k n h) [ inl q ↦ rw q here | inr q ↦ all_below_lem f n k below q ]

-- No part of a key is waiting, or the escape is.
abbrev pub IsKey : ℕ → Type 0
IsKey key = (key ≡ 0) ⊎ (key ≡ escape_flag)

abbrev keeps_key : ℕ → ℕ → Bool
keeps_key key c =
    let k = join_key key c in not (bit_and k 0xff == 0) || ((k == 0) || (k == escape_flag))

-- While a line is typed, the cursor is in it.
abbrev pub CursorIn : State → Line → Type 0
CursorIn sh_input l = l.cmd_pos ≤ l.cmd_len
CursorIn _ l = Unit

-- A character of the console, if there is one.
abbrev pub IsChar : Option ℕ → Type 0
IsChar none = Unit
IsChar (some c) = c < 256

module _ {W : Type 0} where
  -- What holds of the shell in every state.
  pub record Fits (s : Shell W) : Type 0 where
    pub size : length s.line.cmd_buf ≡ suc sh_max_line_len
    pub len_in : s.line.cmd_len ≤ sh_max_line_len
    pub key : IsKey s.current_key

  pub record IsShell (s : Shell W) : Type 0 where
    pub fits : Fits s
    pub cursor : CursorIn s.state s.line
