-- ===== src/Storage/Script.antt =====
-- The boot script in the flash: dev/storage-init.c, and the loop of shell_boot_script in shell/shell.c
-- that runs it. The area is a parameter: dev/sdbfs.c over a library and a device. A byte that is
-- erased is 0xff. What a write to other bytes leaves there is not known, as in a flash.
pub mod Add
pub mod Read
pub mod Boot
pub mod Install
use wrpc_sw.Prelude.{
  ℕ, zero, suc, ◌+◌, ◌-◌, ◌/◌, ◌%◌, ◌^◌, ◌≤◌, ◌<◌, ◌≡◌, Bool, true, false, not, Option, none, some,
  List, [], ◌∷◌, ◌++◌, drop, length, get_or, set, ltb, ◌==◌, if◌then◌else◌,
}
use wrpc_sw.Shell.Line.{sh_max_line_len}
use wrpc_sw.Shell.Commands.{Shell, shell_exec}

-- The file that SDB_DEV_INIT names: whether it opens, its length f_len, the byte at a place (none
-- behind the end), a write at a place, which tells whether all was written, and the erasure, which tells
-- whether all was erased. Both may fail.
pub record Area : Type 1 where
  pub Store : Type 0
  pub opens : Store → Bool
  pub size : ℕ
  pub byte_at : Store → ℕ → Option ℕ
  pub fwrite : Store → ℕ → List ℕ → Bool × Store
  pub ferase : Store → Bool × Store
  pub inside : (s : Store) (i : ℕ) → i < size → (b : ℕ) × (byte_at s i ≡ some b)
  pub outside : (s : Store) (i : ℕ) → size ≤ i → byte_at s i ≡ none
  pub erased :
      (s : Store) (i : ℕ) → (ferase s).0 ≡ true → i < size → byte_at (ferase s).1 i ≡ some 0xff
  pub erase_opens : (s : Store) → opens (ferase s).1 ≡ opens s
  pub write_opens : (s : Store) (i : ℕ) (bs : List ℕ) → opens (fwrite s i bs).1 ≡ opens s
  pub kept_before :
      (s : Store) (i : ℕ) (bs : List ℕ) (j : ℕ) → j < i → byte_at (fwrite s i bs).1 j ≡ byte_at s j
  pub kept_behind :
      (s : Store) (i : ℕ) (bs : List ℕ) (j : ℕ)
      → i + length bs ≤ j
      → byte_at (fwrite s i bs).1 j ≡ byte_at s j
  pub written :
      (s : Store) (i : ℕ) (bs : List ℕ) (k : ℕ)
      → (fwrite s i bs).0 ≡ true
      → i + length bs ≤ size
      → k < length bs
      → byte_at s (i + k) ≡ some 0xff
      → byte_at (fwrite s i bs).1 (i + k) ≡ some (get_or bs k 0)

-- sizeof(used)
abbrev pub header : ℕ
header = 2

abbrev pub separator : List (List ℕ) → ℕ
separator [] = b'\n'
separator (a ∷ args) = b' '

module _ {W : Type 0} where
  -- A line in cmd_buf, its last byte set to 0, and its length with that byte.
  abbrev pub load_line : List ℕ → Shell W → Shell W
  load_line line s =
      let bytes = line ++ drop (length line) s.line.cmd_buf in
      record s {
        line = record s.line { cmd_buf = set bytes (length line - 1) 0; cmd_len = length line };
      }

  abbrev pub run_line : List ℕ → Shell W → Shell W
  run_line line s = (shell_exec none (load_line line s)).1

  -- An empty line: the byte that was erased, and length 0.
  abbrev pub load_end : Shell W → Shell W
  load_end s = record s {
    line = record s.line { cmd_buf = set s.line.cmd_buf 0 0xff; cmd_len = 0 };
  }

module _ (fs : Area) where
  open fs use {Store, opens, size, byte_at, fwrite, ferase}

  -- Whether it succeeds, and the file.
  unfoldable pub storage_init_erase : Store → Bool × Store
  storage_init_erase s = if opens s then ferase s else (false, s)

  -- The number of bytes in front of the first one that is erased, from `used` on; `left` is the number
  -- of bytes that the file can still have.
  unfoldable pub count_used : ℕ → ℕ → Store → ℕ
  count_used zero used s = used
  count_used (suc left) used s =
      let rest = count_used left ((used + 1) % 2 ^ 16) s in
      elim (byte_at s (header + used)) [ none ↦ used | some b ↦ if b == 0xff then used else rest ]

  -- The arguments, with spaces between them and a newline at the end; none if a write fails.
  unfoldable pub add_args : List (List ℕ) → ℕ → Store → Bool × (ℕ × Store)
  add_args [] used s = (true, (used, s))
  add_args (arg ∷ args) used s =
      let (ok, t) = fwrite s (header + used) arg in
      let used' = (used + length arg) % 2 ^ 16 in
      let (ok', u) = fwrite t (header + used') (separator args ∷ []) in
      let rest = add_args args ((used' + 1) % 2 ^ 16) u in
      if not ok then (false, (used, t)) else if not ok' then (false, (used', u)) else rest

  -- `args` are the arguments behind "add".
  unfoldable pub storage_init_add : List (List ℕ) → Store → Bool × Store
  unfolding count_used add_args
  storage_init_add args s =
      if not (opens s)
      then (false, s)
      else (let n = count_used size 0 s in
          let used = if ltb 256 n then 0 else n in
          let (ok, (used', t)) = add_args args used s in
          if not ok
          then (false, t)
          else (let (ok', u) = fwrite t 0 (used' % 2 ^ 8 ∷ used' / 2 ^ 8 ∷ []) in
              if not ok'
              then (false, u)
              else elim (byte_at u 1) [ none ↦ (false, u) | some b ↦ (true, u) ]))

  -- The bytes up to a newline, or to a byte that is erased, and the pointer behind; none if a read
  -- fails, or if the buffer and one more byte are full.
  unfoldable pub read_line : ℕ → ℕ → Store → Option (List ℕ) × ℕ
  read_line zero ptr s = (none, ptr)
  read_line (suc left) ptr s =
      let (line, end') = read_line left ((ptr + 1) % 2 ^ 16) s in
      elim (byte_at s ptr) [
        | none ↦ (none, (ptr + 1) % 2 ^ 16)
        | some b ↦
            if b == 0xff
            then (some [], (ptr + 1) % 2 ^ 16)
            else if b == b'\n'
            then (some (b'\n' ∷ []), (ptr + 1) % 2 ^ 16)
            else (elim line [ none ↦ none | some bs ↦ some (b ∷ bs) ], end')
      ]

  unfoldable pub storage_init_readcmd : ℕ → Bool → ℕ → Store → Option (List ℕ) × ℕ
  unfolding read_line
  storage_init_readcmd bufsize next ptr s =
      if not (opens s)
      then (none, ptr)
      else read_line (suc bufsize) (if next then ptr else header) s

-- Where the file and storage_init_readcmd's static pointer are in the state of the program.
pub record Flash (fs : Area) (W : Type 0) : Type 0 where
  pub file : W → fs.Store
  pub ptr : W → ℕ
  pub seek : ℕ → W → W
  pub sought : (n : ℕ) (w : W) → ptr (seek n w) ≡ n
  pub file_kept : (n : ℕ) (w : W) → file (seek n w) ≡ file w

module _ (fs : Area) {W : Type 0} (at : Flash fs W) where
  abbrev pub seek_to : ℕ → Shell W → Shell W
  seek_to n s = record s { world = at.seek n s.world }

  -- The loop of shell_boot_script, with the number of rounds for fuel; none if they are not enough.
  -- What a failed read leaves in cmd_buf and cmd_len is left out.
  unfoldable pub boot_flash : ℕ → Bool → Shell W → Option (Shell W)
  unfolding storage_init_readcmd
  boot_flash zero next s = none
  boot_flash (suc rounds) next s =
      let (line, n) =
        storage_init_readcmd fs sh_max_line_len next (at.ptr s.world) (at.file s.world) in
      elim line [
        | none ↦ some (seek_to n s)
        | some [] ↦ some (load_end (seek_to n s))
        | some (b ∷ bs) ↦ boot_flash rounds true (run_line (b ∷ bs) (seek_to n s))
      ]
