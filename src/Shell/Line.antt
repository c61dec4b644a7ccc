-- ===== src/Shell/Line.antt =====
-- The line editor of shell/shell.c. What the terminal shows is not part of the model. The C code
-- moves cmd_len - where bytes, which for a position behind the end is undefined; ℕ stops at 0 there.
pub mod Buffer
pub mod Cursor
use wrpc_sw.Prelude.{
  ℕ, suc, ◌+◌, ◌-◌, ◌%◌, ◌≤◌, ◌≡◌, Bool, true, false, not, ◌&&◌, ◌||◌, List, ◌++◌, take, drop, set,
  length, bit_and, leb, ltb, ◌==◌, if◌then◌else◌,
}

abbrev pub sh_max_line_len : ℕ
sh_max_line_len = 80

abbrev pub escape_flag : ℕ
escape_flag = 0x100

abbrev pub key_left : ℕ
key_left = escape_flag + 68

abbrev pub key_right : ℕ
key_right = escape_flag + 67

abbrev pub key_enter : ℕ
key_enter = 13

abbrev pub key_enter10 : ℕ
key_enter10 = 10

abbrev pub key_backspace : ℕ
key_backspace = 127

abbrev pub key_delete : ℕ
key_delete = 126

-- cmd_buf, of SH_MAX_LINE_LEN + 1 bytes, with cmd_pos and cmd_len.
pub record Line : Type 0 where
  pub cmd_buf : List ℕ
  pub cmd_pos : ℕ
  pub cmd_len : ℕ

-- memmove inside one buffer, at the offsets dest and src.
abbrev pub memmove : ℕ → ℕ → ℕ → List ℕ → List ℕ
memmove dest src n buf = take dest buf ++ (take n (drop src buf) ++ drop (dest + n) buf)

unfoldable pub insert : ℕ → Line → Line
insert c s = if leb sh_max_line_len s.cmd_len then s else record {
  cmd_buf =
      set
        (if s.cmd_pos == s.cmd_len
          then s.cmd_buf
          else memmove (suc s.cmd_pos) s.cmd_pos (s.cmd_len - s.cmd_pos) s.cmd_buf)
        s.cmd_pos c;
  cmd_pos = suc s.cmd_pos;
  cmd_len = suc s.cmd_len;
}

unfoldable pub delete : ℕ → Line → Line
delete where_ s = record {
  cmd_buf = memmove where_ (suc where_) (s.cmd_len - where_) s.cmd_buf;
  cmd_pos = s.cmd_pos;
  cmd_len = s.cmd_len - 1;
}

abbrev pub at : ℕ → Line → Line
at pos s = record { cmd_buf = s.cmd_buf; cmd_pos = pos; cmd_len = s.cmd_len }

-- The switch on a complete key, but for the keys that end the line.
unfoldable pub edit : ℕ → Line → Line
edit key s =
    if key == key_left
    then (if ltb 0 s.cmd_pos then at (s.cmd_pos - 1) s else s)
    else if key == key_right
    then (if ltb s.cmd_pos s.cmd_len then at (suc s.cmd_pos) s else s)
    else if key == key_delete
    then (if s.cmd_pos == s.cmd_len then s else delete s.cmd_pos s)
    else if key == key_backspace
    then (if ltb 0 s.cmd_pos then at (s.cmd_pos - 1) (delete (s.cmd_pos - 1) s) else s)
    else if key == b'\t'
    then s
    else if bit_and key escape_flag == 0
    then insert (key % 256) s
    else s
