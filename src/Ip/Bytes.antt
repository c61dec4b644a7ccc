-- ===== src/Ip/Bytes.antt =====
-- Bytes in a packet's buffer.
pub use wrpc_sw.Prelude.{AllBytes}
use wrpc_sw.Prelude.{
  ℕ, ◌+◌, ◌/◌, ◌%◌, ◌^◌, ◌≡◌, refl, ap, Bool, true, false, ◌&&◌, List, [], ◌∷◌, ◌++◌, take, drop,
  length, get_or, ◌==◌, arith,
}

-- memcpy out of the buffer.
abbrev pub get : ℕ → ℕ → List ℕ → List ℕ
get off n buf = take n (drop off buf)

-- memcpy into the buffer, or the stores of the bytes at off, off + 1 and so on.
abbrev pub put : ℕ → List ℕ → List ℕ → List ℕ
put off bytes buf = take off buf ++ (bytes ++ drop (off + length bytes) buf)

abbrev pub byte : ℕ → List ℕ → ℕ
byte off buf = get_or buf off 0

-- memcmp gives 0
abbrev pub same : List ℕ → List ℕ → Bool
same [] [] = true
same [] (y ∷ ys) = false
same (x ∷ xs) [] = false
same (x ∷ xs) (y ∷ ys) = (x == y) && same xs ys

-- The two bytes of a 16-bit number, as the network has them.
abbrev pub be16 : ℕ → List ℕ
be16 n = n / 2 ^ 8 % 2 ^ 8 ∷ n % 2 ^ 8 ∷ []

pub take-length-append : (xs ys : List ℕ) → take (length xs) (xs ++ ys) ≡ xs
take-length-append [] ys = refl
take-length-append (x ∷ xs) ys = ap (λ t. x ∷ t) (take-length-append xs ys)

pub drop-length-append : (xs ys : List ℕ) → drop (length xs) (xs ++ ys) ≡ ys
drop-length-append [] ys = refl
drop-length-append (x ∷ xs) ys = drop-length-append xs ys

pub same_self : (xs : List ℕ) → same xs xs ≡ true
same_self [] = refl
same_self (x ∷ xs) = ground (arith, same_self xs)
