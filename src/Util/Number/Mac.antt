-- ===== src/Util/Number/Mac.antt =====
-- decode_mac of lib/util.c reads back what a MAC address is written as.
use wrpc_sw.Prelude.{
  AllBytes, ℕ, ◌+◌, ◌-◌, ◌/◌, ◌%◌, ◌<◌, ◌≡◌, refl, sym, false, none, some, List, [], ◌∷◌, ◌++◌,
  arith, length, ltb, if◌then◌else◌, ◌==◌,
}
use wrpc_sw.Prelude.Int.{ℤ, pos, ◌*ℤ◌, ◌+ℤ◌, i32, i64, low_bits}
use wrpc_sw.Util.Number.{
  hex_digit, hex_scan, fromhex64, fromhex, skip_colon, first, decode_bytes, decode_mac,
}

abbrev pub digit : ℕ → ℕ
digit d = if ltb d 10 then b'0' + d else b'a' + (d - 10)

-- Every byte as a colon and two hexadecimal digits.
abbrev pub colon_text : List ℕ → List ℕ
colon_text [] = []
colon_text (b ∷ bs) = b':' ∷ digit (b / 16) ∷ digit (b % 16) ∷ colon_text bs

-- The usual text of an address: two digits for a byte and a colon between two bytes.
abbrev pub mac_text : List ℕ → List ℕ
mac_text [] = []
mac_text (b ∷ bs) = digit (b / 16) ∷ digit (b % 16) ∷ colon_text bs

hex_digit-digit : (d : ℕ) → d < 16 → hex_digit (digit d) ≡ some d
hex_digit-digit d h = ground arith

digit_not_minus : (d : ℕ) → (digit d == b'-') ≡ false
digit_not_minus d = ground arith

first-colon_text :
    (bs rest : List ℕ)
    → hex_digit (first rest) ≡ none
    → hex_digit (first (colon_text bs ++ rest)) ≡ none
first-colon_text [] rest h = h
first-colon_text (b ∷ bs) rest h = refl

hex_scan_stops : (s : List ℕ) (o : ℤ) → hex_digit (first s) ≡ none → hex_scan s o ≡ (s, o)
unfolding hex_scan
hex_scan_stops [] o h = refl
hex_scan_stops (c ∷ s) o h = rw (hex_scan, h) refl

two_digits :
    (b : ℕ)
    → b < 256
    → i32 (i64 (i64 (i64 (i64 (pos 0 *ℤ pos 16) +ℤ pos (b / 16)) *ℤ pos 16) +ℤ pos (b % 16)))
      ≡ pos b
unfolding i32 i64 low_bits ◌*ℤ◌ ◌+ℤ◌
two_digits b h = ground arith

low_bits-pos : (b : ℕ) → b < 256 → low_bits 8 (pos b) ≡ b
unfolding low_bits
low_bits-pos b h = ground arith

hex_scan-digit :
    (d : ℕ) (s : List ℕ) (o : ℤ)
    → d < 16
    → hex_scan (digit d ∷ s) o ≡ hex_scan s (i64 (i64 (o *ℤ pos 16) +ℤ pos d))
unfolding hex_scan
hex_scan-digit d s o h = rw (hex_scan, hex_digit-digit d h) refl

fromhex-digits :
    (b : ℕ) (s : List ℕ)
    → b < 256
    → hex_digit (first s) ≡ none
    → fromhex (digit (b / 16) ∷ digit (b % 16) ∷ s) ≡ (s, pos b)
unfolding fromhex fromhex64
fromhex-digits b s h st =
    rw
      (
        digit_not_minus (b / 16),
        hex_scan-digit (b / 16) (digit (b % 16) ∷ s) (pos 0) (omega arith),
        hex_scan-digit (b % 16) s (i64 (i64 (pos 0 *ℤ pos 16) +ℤ pos (b / 16))) (omega arith),
        hex_scan_stops s
            (i64 (i64 (i64 (i64 (pos 0 *ℤ pos 16) +ℤ pos (b / 16)) *ℤ pos 16) +ℤ pos (b % 16))) st,
        two_digits b h,
      )
      refl

decode_bytes-colon_text :
    (bs rest : List ℕ)
    → AllBytes bs
    → hex_digit (first rest) ≡ none
    → decode_bytes (length bs) (skip_colon (colon_text bs ++ rest)) ≡ bs
unfolding decode_bytes
decode_bytes-colon_text [] rest a st = refl
decode_bytes-colon_text (b ∷ bs) rest (h, a) st =
    rw
      (
        fromhex-digits b (colon_text bs ++ rest) h (first-colon_text bs rest st),
        low_bits-pos b h,
        decode_bytes-colon_text bs rest a st,
      )
      refl

-- The text of six bytes, with no hexadecimal digit behind it, is decoded as these bytes.
pub decode_mac-mac_text :
    (mac rest : List ℕ)
    → length mac ≡ 6
    → AllBytes mac
    → hex_digit (first rest) ≡ none
    → decode_mac (mac_text mac ++ rest) ≡ mac
unfolding decode_mac
decode_mac-mac_text [] rest six a st = absurd (omega (arith, six))
decode_mac-mac_text (b ∷ bs) rest six a st =
    rw (sym six) (decode_bytes-colon_text (b ∷ bs) rest a st)
