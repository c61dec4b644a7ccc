-- ===== src/Util/Number.antt =====
-- Numbers and names in texts, of lib/util.c. A text is the list of its bytes up to the final 0, which
-- a read past the list gives. A null pointer, which the parsers leave alone, is no text of the model.
pub mod Decimal
pub mod Mac
pub mod Names
use wrpc_sw.Prelude.{
  ℕ, zero, suc, ◌+◌, ◌-◌, Bool, true, false, ◌&&◌, ◌||◌, Option, none, some, List, [], ◌∷◌, leb,
  ltb, ◌==◌, if◌then◌else◌,
}
use wrpc_sw.Prelude.Int.{ℤ, pos, negsuc, ◌+ℤ◌, ◌-ℤ◌, ◌*ℤ◌, i32, i64, neg, low_bits}

abbrev pub between : ℕ → ℕ → ℕ → Bool
between lo hi c = leb lo c && leb c hi

-- The value of a hexadecimal digit.
abbrev pub hex_digit : ℕ → Option ℕ
hex_digit c =
    if between b'0' b'9' c
    then some (c - b'0')
    else if between b'A' b'F' c
    then some (c - b'A' + 10)
    else if between b'a' b'f' c
    then some (c - b'a' + 10)
    else none

-- The loop of fromhex64: the rest of the text and the sum.
unfoldable pub hex_scan : List ℕ → ℤ → List ℕ × ℤ
hex_scan [] o = ([], o)
hex_scan (c ∷ s) o = elim (hex_digit c) [
  | none ↦ (c ∷ s, o)
  | some d ↦ hex_scan s (i64 (i64 (o *ℤ pos 16) +ℤ pos d))
]

unfoldable pub fromhex64 : List ℕ → List ℕ × ℤ
fromhex64 [] = ([], pos 0)
fromhex64 (c ∷ s) =
    if c == b'-'
    then (let (rest, o) = hex_scan s (pos 0) in (rest, i64 (o *ℤ negsuc 0)))
    else hex_scan (c ∷ s) (pos 0)

unfoldable pub fromhex : List ℕ → List ℕ × ℤ
fromhex hex = let (rest, v) = fromhex64 hex in (rest, i32 v)

-- The loop of fromdec.
unfoldable pub dec_scan : List ℕ → ℤ → List ℕ × ℤ
dec_scan [] o = ([], o)
dec_scan (c ∷ s) o = elim (between b'0' b'9' c) [
  | false ↦ (c ∷ s, o)
  | true ↦ dec_scan s (i32 (i32 (o *ℤ pos 10) +ℤ pos (c - b'0')))
]

unfoldable pub fromdec : List ℕ → List ℕ × ℤ
fromdec [] = ([], pos 0)
fromdec (c ∷ s) =
    if c == b'-'
    then (let (rest, o) = dec_scan s (pos 0) in (rest, i32 (neg o)))
    else dec_scan (c ∷ s) (pos 0)

unfoldable pub atoi : List ℕ → ℤ
atoi s = (fromdec s).1

abbrev pub skip_colon : List ℕ → List ℕ
skip_colon [] = []
skip_colon (c ∷ s) = if c == b':' then s else c ∷ s

-- The loop of decode_mac, n rounds.
unfoldable pub decode_bytes : ℕ → List ℕ → List ℕ
decode_bytes zero str = []
decode_bytes (suc n) str =
    let (rest, x) = fromhex str in low_bits 8 x ∷ decode_bytes n (skip_colon rest)

unfoldable pub decode_mac : List ℕ → List ℕ
decode_mac str = decode_bytes 6 str

abbrev pub tolower : ℕ → ℕ
tolower c = if between b'A' b'Z' c then c - b'A' + b'a' else c

abbrev pub first : List ℕ → ℕ
first [] = 0
first (c ∷ s) = c

abbrev pub next : List ℕ → List ℕ
next [] = []
next (c ∷ s) = s

unfoldable pub strcasecmp : List ℕ → List ℕ → ℤ
strcasecmp [] s2 = if tolower 0 == tolower (first s2) then pos 0 else (pos (first s2) -ℤ pos 0)
strcasecmp (c ∷ s1) s2 =
    let rest = strcasecmp s1 (next s2) in
    if tolower c == tolower (first s2)
    then (if c == 0 then pos 0 else rest)
    else (pos (first s2) -ℤ pos c)
