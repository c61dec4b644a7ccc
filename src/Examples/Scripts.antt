-- ===== src/Examples/Scripts.antt =====
-- The boot script in a memory of 512 bytes.
use wrpc_sw.Prelude.{
  ℕ, ◌+◌, ◌-◌, ◌≤◌, ◌<◌, ◌≡◌, refl, ◌&&◌, Bool, true, false, Option, none, some, List, [], ◌∷◌, leb,
  ltb, get_or, if◌then◌else◌, arith, length, replicate,
}
use wrpc_sw.Prelude.Int.{pos}
use wrpc_sw.Shell.Commands.{sh_prompt, Command, Shell}
use wrpc_sw.Storage.Script.{Area, Flash, storage_init_erase}
use wrpc_sw.Storage.Script.Install.{Words, add_all}

abbrev byte_at : (ℕ → ℕ) → ℕ → Option ℕ
byte_at s i = if ltb i 512 then some (s i) else none

abbrev pub fwrite : (ℕ → ℕ) → ℕ → List ℕ → Bool × (ℕ → ℕ)
fwrite s i bs = (
  leb (i + length bs) 512,
  λ j. if leb i j && ltb j (i + length bs) then get_or bs (j - i) 0 else s j,
)

written_back :
    (s : ℕ → ℕ) (i : ℕ) (bs : List ℕ) (k : ℕ)
    → i + length bs ≤ 512
    → k < length bs
    → byte_at (fwrite s i bs).1 (i + k) ≡ some (get_or bs k 0)
written_back s i bs k l m =
    let e : i + k - i ≡ k = omega arith in
    let low : leb i (i + k) ≡ true = ground arith in
    let high : ltb (i + k) (i + length bs) ≡ true = ground arith in
    let inside : ltb (i + k) 512 ≡ true = ground arith in rw (low, high, inside, e) refl

inside_lem : (s : ℕ → ℕ) (i : ℕ) → i < 512 → byte_at s i ≡ some (s i)
inside_lem s i l = ground arith

outside_lem : (s : ℕ → ℕ) (i : ℕ) → 512 ≤ i → byte_at s i ≡ none
outside_lem s i l = ground arith

erased_lem : (i : ℕ) → i < 512 → byte_at (λ j. 0xff) i ≡ some 0xff
erased_lem i l = ground arith

before_lem :
    (s : ℕ → ℕ) (i : ℕ) (bs : List ℕ) (j : ℕ) → j < i → byte_at (fwrite s i bs).1 j ≡ byte_at s j
before_lem s i bs j l = let low : leb i j ≡ false = ground arith in rw low refl

behind_lem :
    (s : ℕ → ℕ) (i : ℕ) (bs : List ℕ) (j : ℕ)
    → i + length bs ≤ j
    → byte_at (fwrite s i bs).1 j ≡ byte_at s j
behind_lem s i bs j l =
    let low : leb i j ≡ true = ground arith in
    let high : ltb j (i + length bs) ≡ false = ground arith in rw (low, high) refl

abbrev eeprom : Area
eeprom = record {
  Store = ℕ → ℕ;
  opens = λ s. true;
  size = 512;
  byte_at = byte_at;
  fwrite = fwrite;
  ferase = λ s. (true, λ i. 0xff);
  inside = λ s i l. (s i, inside_lem s i l);
  outside = outside_lem;
  erased = λ s i w l. erased_lem i l;
  erase_opens = λ s. refl;
  write_opens = λ s i bs. refl;
  kept_before = before_lem;
  kept_behind = behind_lem;
  written = λ s i bs k w l m e. written_back s i bs k l m;
}

-- The state is the pointer, the file, and the number of arguments.
abbrev World : Type 0
World = ℕ × ((ℕ → ℕ) × ℕ)

abbrev flash : Flash eeprom World
flash = record {
  file = λ w. w.1.0;
  ptr = λ w. w.0;
  seek = λ n w. (n, w.1);
  sought = λ n w. refl;
  file_kept = λ n w. refl;
}

abbrev help : Command World
help = record {
  name = (b'h' ∷ b'e' ∷ b'l' ∷ b'p' ∷ []);
  exec = λ args. λ l. λ w. record {
    rv = pos 0;
    activated = none;
    line = l;
    world = (w.0, (w.1.0, w.1.1 + length args));
  };
}

-- "help me" and "help".
abbrev commands : List Words
commands =
    ((b'h' ∷ b'e' ∷ b'l' ∷ b'p' ∷ []), (b'm' ∷ b'e' ∷ []) ∷ [])
    ∷ ((b'h' ∷ b'e' ∷ b'l' ∷ b'p' ∷ []), [])
    ∷ []

abbrev shell : Shell World
shell = record {
  line = record { cmd_buf = replicate 81 0; cmd_pos = 0; cmd_len = 0 };
  state = sh_prompt;
  current_key = 0;
  cmds = help ∷ [];
  is_interacting = false;
  ui_callback = none;
  world = (0, (add_all eeprom commands (storage_init_erase eeprom (λ i. 0)).1, 0));
}
