-- ===== src/Shell/Args/Words.antt =====
-- The arguments of a command line, of _shell_exec of shell/shell.c, are its words.
use wrpc_sw.Prelude.{
  ℕ, zero, suc, ◌+◌, ◌≤◌, ◌<◌, ◌≡◌, ◌-◌, refl, ap, ap₂, ◌∙◌, ◌⊎◌, inl, inr, Bool, true, false, List,
  [], ◌∷◌, ◌++◌, map, drop, replicate, length, ◌==◌, arith, Bool-cases,
}
use wrpc_sw.Shell.Args.{sh_max_args, put, point, scan_args, text, args_of}

-- The pointers of a scan from the next index are the next pointers.
abbrev shift : List ℕ × List ℕ → List ℕ × List ℕ
shift (buf, tokptr) = (buf, map suc tokptr)

scan_args-suc :
    (inside : Bool) (free i : ℕ) (buf : List ℕ)
    → scan_args inside free (suc i) buf ≡ shift (scan_args inside free i buf)
unfolding scan_args
scan_args-suc inside zero i buf = refl
scan_args-suc inside (suc free) i [] = refl
scan_args-suc true (suc free) i (c ∷ buf) = elim (Bool-cases (c == b' ')) [
  | inl s ↦ rw (scan_args, s) (ap (put 0) (scan_args-suc false (suc free) (suc i) buf))
  | inr s ↦ elim (Bool-cases (c == 0)) [
    | inl z ↦ rw (scan_args, s, z) refl
    | inr z ↦ rw (scan_args, s, z) (ap (put c) (scan_args-suc true (suc free) (suc i) buf))
  ]
]
scan_args-suc false (suc free) i (c ∷ buf) = elim (Bool-cases (c == b' ')) [
  | inl s ↦ rw (scan_args, s) (ap (put 0) (scan_args-suc false (suc free) (suc i) buf))
  | inr s ↦ elim (Bool-cases (c == 0)) [
    | inl z ↦ rw (scan_args, s, z) refl
    | inr z ↦
        rw (scan_args, s, z)
          (ap (λ r. point (suc i) (put c r)) (scan_args-suc true free (suc i) buf))
  ]
]

-- The texts at the pointers into the buffer that a scan leaves.
abbrev texts : List ℕ × List ℕ → List (List ℕ)
texts (buf, tokptr) = map (λ p. text (drop p buf)) tokptr

drop-put :
    (c : ℕ) (buf tokptr : List ℕ)
    → map (λ p. text (drop p (c ∷ buf))) (map suc tokptr) ≡ map (λ p. text (drop p buf)) tokptr
drop-put c buf [] = refl
drop-put c buf (p ∷ tokptr) = ap (λ ts. text (drop p buf) ∷ ts) (drop-put c buf tokptr)

texts-put :
    (c : ℕ) (inside : Bool) (free : ℕ) (buf : List ℕ)
    → texts (put c (scan_args inside free 1 buf)) ≡ texts (scan_args inside free 0 buf)
texts-put c inside free buf =
    rw (scan_args-suc inside free 0 buf)
      (drop-put c (scan_args inside free 0 buf).0 (scan_args inside free 0 buf).1)

texts_space :
    (inside : Bool) (free : ℕ) (buf : List ℕ)
    → texts (scan_args inside (suc free) 0 (b' ' ∷ buf)) ≡ texts (scan_args false (suc free) 0 buf)
unfolding scan_args
texts_space true free buf = texts-put 0 false (suc free) buf
texts_space false free buf = texts-put 0 false (suc free) buf

-- A byte of a word.
abbrev pub IsLetter : ℕ → Type 0
IsLetter c = ((c == b' ') ≡ false) × ((c == 0) ≡ false)

abbrev pub AllLetters : List ℕ → Type 0
AllLetters [] = Unit
AllLetters (c ∷ w) = IsLetter c × AllLetters w

abbrev pub NoEnd : List ℕ → Type 0
NoEnd [] = Unit
NoEnd (c ∷ w) = ((c == 0) ≡ false) × NoEnd w

scan_letter :
    (c free i : ℕ) (buf : List ℕ)
    → IsLetter c
    → scan_args true (suc free) i (c ∷ buf) ≡ put c (scan_args true (suc free) (suc i) buf)
unfolding scan_args
scan_letter c free i buf (s, z) = rw (scan_args, s, z) refl

scan_first :
    (c free i : ℕ) (buf : List ℕ)
    → IsLetter c
    → scan_args false (suc free) i (c ∷ buf) ≡ point i (put c (scan_args true free (suc i) buf))
unfolding scan_args
scan_first c free i buf (s, z) = rw (scan_args, s, z) refl

text-cons : (c : ℕ) (s : List ℕ) → (c == 0) ≡ false → text (c ∷ s) ≡ c ∷ text s
text-cons c s z = rw z refl

texts_letter :
    (c free : ℕ) (buf : List ℕ)
    → IsLetter c
    → texts (scan_args true (suc free) 0 (c ∷ buf)) ≡ texts (scan_args true (suc free) 0 buf)
texts_letter c free buf l = rw (scan_letter c free 0 buf l) (texts-put c true (suc free) buf)

-- A first letter starts an argument.
texts_start :
    (c free : ℕ) (buf : List ℕ)
    → IsLetter c
    → texts (scan_args false (suc free) 0 (c ∷ buf))
      ≡ (c ∷ text (scan_args true free 1 buf).0) ∷ texts (scan_args true free 0 buf)
texts_start c free buf l =
    rw (scan_first c free 0 buf l) (
      ap₂ (λ u v. u ∷ v) (text-cons c (scan_args true free 1 buf).0 l.1)
        (texts-put c true free buf))

-- A word inside an argument is passed over, to a space or the end behind it.
texts_word :
    (w : List ℕ) (free : ℕ) (buf : List ℕ)
    → AllLetters w
    → texts (scan_args true (suc free) 0 (w ++ buf)) ≡ texts (scan_args true (suc free) 0 buf)
texts_word [] free buf a = refl
texts_word (c ∷ w) free buf (l, a) = texts_letter c free (w ++ buf) l ∙ texts_word w free buf a

text_word :
    (w : List ℕ) (free i : ℕ) (buf : List ℕ)
    → AllLetters w
    → (text (scan_args true (suc free) i (w ++ (b' ' ∷ buf))).0 ≡ w)
      × (text (scan_args true (suc free) i (w ++ 0 ∷ buf)).0 ≡ w)
unfolding scan_args
text_word [] free i buf a = (refl, refl)
text_word (c ∷ w) free i buf (l, a) =
    let (e, f) = text_word w free (suc i) buf a in
    (
      ap (λ r. text r.0) (scan_letter c free i (w ++ (b' ' ∷ buf)) l)
          ∙ text-cons c (scan_args true (suc free) (suc i) (w ++ (b' ' ∷ buf))).0 l.1
          ∙ ap (λ t. c ∷ t) e,
      ap (λ r. text r.0) (scan_letter c free i (w ++ 0 ∷ buf) l)
          ∙ text-cons c (scan_args true (suc free) (suc i) (w ++ 0 ∷ buf)).0 l.1
          ∙ ap (λ t. c ∷ t) f,
    )

text-NoEnd : (w buf : List ℕ) → NoEnd w → text (w ++ 0 ∷ buf) ≡ w
text-NoEnd [] buf a = refl
text-NoEnd (c ∷ w) buf (z, a) = rw z (ap (λ t. c ∷ t) (text-NoEnd w buf a))

texts_spaces :
    (g free : ℕ) (buf : List ℕ)
    → texts (scan_args false (suc free) 0 (replicate g b' ' ++ buf))
      ≡ texts (scan_args false (suc free) 0 buf)
texts_spaces zero free buf = refl
texts_spaces (suc g) free buf =
    texts_space false free (replicate g b' ' ++ buf) ∙ texts_spaces g free buf

-- A word with its space.
texts_first :
    (c : ℕ) (w : List ℕ) (free : ℕ) (buf : List ℕ)
    → AllLetters (c ∷ w)
    → texts (scan_args false (suc (suc free)) 0 ((c ∷ w) ++ b' ' ∷ buf))
      ≡ (c ∷ w) ∷ texts (scan_args false (suc free) 0 buf)
texts_first c w free buf (l, a) =
    texts_start c (suc free) (w ++ (b' ' ∷ buf)) l
    ∙ ap₂ (λ u v. (c ∷ u) ∷ v) (text_word w free 1 buf a).0
        (texts_word w free (b' ' ∷ buf) a ∙ texts_space true free buf)

-- The last argument: up to the end if it is a word, or if no further argument is free.
texts_last :
    (c : ℕ) (w : List ℕ) (free : ℕ) (buf : List ℕ)
    → IsLetter c
    → NoEnd w
    → (free ≡ 0) ⊎ AllLetters w
    → texts (scan_args false (suc free) 0 ((c ∷ w) ++ 0 ∷ buf)) ≡ (c ∷ w) ∷ []
unfolding scan_args
texts_last c w zero buf l n k =
    texts_start c 0 (w ++ 0 ∷ buf) l ∙ ap (λ t. (c ∷ t) ∷ []) (text-NoEnd w buf n)
texts_last c w (suc free) buf l n (inl e) = absurd (omega (arith, e))
texts_last c w (suc free) buf l n (inr a) =
    texts_start c (suc free) (w ++ 0 ∷ buf) l
    ∙ ap₂ (λ u v. (c ∷ u) ∷ v) (text_word w free 1 buf a).1 (texts_word w free (0 ∷ buf) a)

-- A word of the line: its first letter, the others, and the spaces behind it, less one.
pub record Spaced : Type 0 where
  pub head : ℕ
  pub tail : List ℕ
  pub gap : ℕ

abbrev pub word : Spaced → List ℕ
word w = w.head ∷ w.tail

abbrev pub AllWords : List Spaced → Type 0
AllWords [] = Unit
AllWords (w ∷ ws) = AllLetters (word w) × AllWords ws

-- The words with their spaces, and the text that follows.
abbrev pub line_of : List Spaced → List ℕ → List ℕ
line_of [] end = end
line_of (w ∷ ws) end = word w ++ (b' ' ∷ (replicate w.gap b' ' ++ line_of ws end))

texts-line_of :
    (ws : List Spaced) (free : ℕ) (end : List ℕ)
    → AllWords ws
    → texts (scan_args false (suc (length ws + free)) 0 (line_of ws end))
      ≡ map word ws ++ texts (scan_args false (suc free) 0 end)
texts-line_of [] free end a = let z : 0 + free ≡ free = omega arith in rw z refl
texts-line_of (w ∷ ws) free end (a, b) =
    let z : suc (length ws) + free ≡ suc (length ws + free) = omega arith in
    rw z (
      texts_first w.head w.tail (length ws + free) (replicate w.gap b' ' ++ line_of ws end) a
      ∙ ap (λ ts. word w ∷ ts)
          (texts_spaces w.gap (length ws + free) (line_of ws end) ∙ texts-line_of ws free end b))

-- The arguments of a line are its words, spaces before it and between them set aside, when the line
-- has at most eight words and ends with one. From the eighth word on, the rest of the line, its spaces
-- included, is the eighth argument.
pub args_of-line_of :
    (g : ℕ) (ws : List Spaced) (c : ℕ) (last stale : List ℕ)
    → AllWords ws
    → length ws < sh_max_args
    → IsLetter c
    → NoEnd last
    → (suc (length ws) ≡ sh_max_args) ⊎ AllLetters last
    → args_of (replicate g b' ' ++ line_of ws ((c ∷ last) ++ 0 ∷ stale))
      ≡ map word ws ++ (c ∷ last) ∷ []
unfolding args_of
args_of-line_of g ws c last stale a h l n k =
    let free = sh_max_args - 1 - length ws in
    let end = (c ∷ last) ++ 0 ∷ stale in
    let all : 7 ≡ length ws + free = omega arith in
    let none_left : (free ≡ 0) ⊎ AllLetters last = elim k [
      | inl e ↦ inl (omega (arith, e))
      | inr w ↦ inr w
    ] in
    texts_spaces g 7 (line_of ws end)
    ∙ ap (λ f. texts (scan_args false (suc f) 0 (line_of ws end))) all
    ∙ texts-line_of ws free end a
    ∙ ap (λ t. map word ws ++ t) (texts_last c last free stale l n none_left)

-- Whatever is in the buffer, tokptr has room for the arguments and the null pointer behind them, and
-- the buffer keeps its length.
pub scan_args_bounds :
    (inside : Bool) (free i : ℕ) (buf : List ℕ)
    → (length (scan_args inside free i buf).1 ≤ free)
      × (length (scan_args inside free i buf).0 ≡ length buf)
unfolding scan_args
scan_args_bounds inside zero i buf = (omega arith, refl)
scan_args_bounds inside (suc free) i [] = (omega arith, refl)
scan_args_bounds true (suc free) i (c ∷ buf) = elim (Bool-cases (c == b' ')) [
  | inl s ↦
      let (t, b) = scan_args_bounds false (suc free) (suc i) buf in rw (scan_args, s) (t, ap suc b)
  | inr s ↦ elim (Bool-cases (c == 0)) [
    | inl z ↦ rw (scan_args, s, z) (omega arith, refl)
    | inr z ↦
        let (t, b) = scan_args_bounds true (suc free) (suc i) buf in
        rw (scan_args, s, z) (t, ap suc b)
  ]
]
scan_args_bounds false (suc free) i (c ∷ buf) = elim (Bool-cases (c == b' ')) [
  | inl s ↦
      let (t, b) = scan_args_bounds false (suc free) (suc i) buf in rw (scan_args, s) (t, ap suc b)
  | inr s ↦ elim (Bool-cases (c == 0)) [
    | inl z ↦ rw (scan_args, s, z) (omega arith, refl)
    | inr z ↦
        let (t, b) = scan_args_bounds true free (suc i) buf in
        rw (scan_args, s, z) (omega (arith, t), ap suc b)
  ]
]
