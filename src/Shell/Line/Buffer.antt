-- ===== src/Shell/Line/Buffer.antt =====
-- What memmove of shell/shell.c's line editor does to the text in the buffer.
use wrpc_sw.Prelude.{
  ℕ, zero, suc, ◌+◌, ◌-◌, ◌≤◌, ◌<◌, ◌≡◌, refl, ap, ◌∙◌, List, [], ◌∷◌, ◌++◌, take, drop, set,
  length, ◌==◌, if◌then◌else◌, arith, length-set, length-append, length-take, length-drop,
  Bool-cases, inl, inr,
}
use mathlib.Core.Path.{subst}
use wrpc_sw.Shell.Line.{memmove}

abbrev pub insert_at : ℕ → ℕ → List ℕ → List ℕ
insert_at zero c t = c ∷ t
insert_at (suc p) c [] = c ∷ []
insert_at (suc p) c (x ∷ t) = x ∷ insert_at p c t

abbrev pub remove_at : ℕ → List ℕ → List ℕ
remove_at p [] = []
remove_at zero (x ∷ t) = t
remove_at (suc p) (x ∷ t) = x ∷ remove_at p t

pub take-take-append :
    (a b : ℕ) (xs ys : List ℕ) → a ≤ b → a ≤ length xs → take a (take b xs ++ ys) ≡ take a xs
take-take-append zero b xs ys h k = refl
take-take-append (suc a) zero xs ys h k = absurd (omega (arith, h))
take-take-append (suc a) (suc b) [] ys h k = absurd (omega (arith, k))
take-take-append (suc a) (suc b) (x ∷ xs) ys h k =
    ap (λ t. x ∷ t) (take-take-append a b xs ys (omega arith) (omega arith))

pub length-memmove :
    (dest src n : ℕ) (buf : List ℕ)
    → dest + n ≤ length buf
    → src + n ≤ length buf
    → length (memmove dest src n buf) ≡ length buf
length-memmove dest src n buf h k =
    rw
      (
        length-append (take dest buf) (take n (drop src buf) ++ drop (dest + n) buf),
        length-append (take n (drop src buf)) (drop (dest + n) buf),
        length-take dest buf,
        length-take n (drop src buf),
        length-drop src buf,
        length-drop (dest + n) buf,
      )
      (omega arith)

pub add_suc : (p m : ℕ) → suc p + m ≡ suc (p + m)
add_suc p m = omega arith

pub zero_add : (m : ℕ) → 0 + m ≡ m
zero_add m = omega arith

pub take-memmove_up :
    (p m c : ℕ) (buf : List ℕ)
    → p + m < length buf
    → take (suc (p + m)) (set (memmove (suc p) p m buf) p c) ≡ insert_at p c (take (p + m) buf)
take-memmove_up p m c [] k = absurd (omega (arith, k))
take-memmove_up zero m c (x ∷ buf) k = rw (zero_add m) (
    ap (λ t. c ∷ t)
      (take-take-append m m (x ∷ buf) (drop (1 + m) (x ∷ buf)) (omega arith) (omega arith)))
take-memmove_up (suc p) m c (x ∷ buf) k =
    rw (add_suc p m, add_suc (suc p) m) (ap (λ t. x ∷ t) (take-memmove_up p m c buf (omega arith)))

pub take-set_end :
    (n c : ℕ) (buf : List ℕ)
    → n < length buf
    → take (suc n) (set buf n c) ≡ insert_at n c (take n buf)
take-set_end n c [] k = absurd (omega (arith, k))
take-set_end zero c (x ∷ buf) k = refl
take-set_end (suc n) c (x ∷ buf) k = ap (λ t. x ∷ t) (take-set_end n c buf (omega arith))

pub take-memmove_down :
    (w m : ℕ) (buf : List ℕ)
    → suc (w + m) < length buf
    → take (w + m) (memmove w (suc w) (suc m) buf) ≡ remove_at w (take (suc (w + m)) buf)
take-memmove_down w m [] k = absurd (omega (arith, k))
take-memmove_down zero m (x ∷ buf) k =
    rw (zero_add m)
      (take-take-append m (suc m) buf (drop (0 + suc m) (x ∷ buf)) (omega arith) (omega arith))
take-memmove_down (suc w) m (x ∷ buf) k =
    rw (add_suc w m, add_suc w (suc m)) (ap (λ t. x ∷ t) (take-memmove_down w m buf (omega arith)))

-- The same with the length of the line.
pub take-insert :
    (p n c : ℕ) (buf : List ℕ)
    → p ≤ n
    → n < length buf
    → take (suc n) (set (if p == n then buf else memmove (suc p) p (n - p) buf) p c)
      ≡ insert_at p c (take n buf)
take-insert p n c buf h k = elim (Bool-cases (p == n)) [
  | inl e ↦ let q : p ≡ n = ground (arith, e) in rw (e, q) (take-set_end n c buf k)
  | inr e ↦ rw e (
      subst
        (λ i. take (suc i) (set (memmove (suc p) p (n - p) buf) p c) ≡ insert_at p c (take i buf))
        (let e : p + (n - p) ≡ n = omega arith in e)
        (take-memmove_up p (n - p) c buf (omega arith)))
]

pub length-insert :
    (p n c : ℕ) (buf : List ℕ)
    → p ≤ n
    → n < length buf
    → length (set (if p == n then buf else memmove (suc p) p (n - p) buf) p c) ≡ length buf
length-insert p n c buf h k = elim (Bool-cases (p == n)) [
  | inl e ↦ rw e (length-set buf p c)
  | inr e ↦ rw e (
      length-set (memmove (suc p) p (n - p) buf) p c
      ∙ length-memmove (suc p) p (n - p) buf (omega arith) (omega arith))
]

pub take-delete :
    (w n m : ℕ) (buf : List ℕ)
    → n ≡ suc (w + m)
    → n < length buf
    → take (n - 1) (memmove w (suc w) (n - w) buf) ≡ remove_at w (take n buf)
take-delete w n m buf e k =
    let a : suc (w + m) - w ≡ suc m = omega arith in
    let b : suc (w + m) - 1 ≡ w + m = omega arith in
    rw (e, a, b) (take-memmove_down w m buf (omega (arith, e)))
