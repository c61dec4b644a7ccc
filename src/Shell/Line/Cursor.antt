-- ===== src/Shell/Line/Cursor.antt =====
-- The line editor of shell/shell.c is an editor of a text with a cursor.
use wrpc_sw.Prelude.{
  ℕ, zero, suc, ◌-◌, ◌%◌, ◌≤◌, ◌<◌, ◌≡◌, refl, ap, ◌∙◌, true, false, ◌&&◌, List, [], ◌∷◌, take,
  length, bit_and, leb, ltb, ◌==◌, if◌then◌else◌, arith, length-take, Bool-cases, inl, inr, min,
}
use wrpc_sw.Shell.Line.{
  sh_max_line_len, escape_flag, key_left, key_right, key_backspace, key_delete, Line, insert,
  delete, at, edit,
}
use wrpc_sw.Shell.Line.Buffer.{
  insert_at, remove_at, take-insert, length-insert, length-memmove, take-delete,
}

-- The buffer has its 81 bytes, the cursor is in the line or at its end, and the line fits.
pub record IsLine (s : Line) : Type 0 where
  pub size : length s.cmd_buf ≡ suc sh_max_line_len
  pub pos_in : s.cmd_pos ≤ s.cmd_len
  pub len_in : s.cmd_len ≤ sh_max_line_len

-- The text of the line and the place of the cursor.
abbrev pub view : Line → List ℕ × ℕ
view s = (take s.cmd_len s.cmd_buf, s.cmd_pos)

-- What a key does to a text with a cursor.
abbrev pub edit_text : ℕ → List ℕ × ℕ → List ℕ × ℕ
edit_text key (t, p) =
    if key == key_left
    then (t, p - 1)
    else if key == key_right
    then (t, min (suc p) (length t))
    else if key == key_delete
    then (remove_at p t, p)
    else if key == key_backspace
    then ((if p == 0 then t else remove_at (p - 1) t), p - 1)
    else if key == b'\t'
    then (t, p)
    else if bit_and key escape_flag == 0 && ltb (length t) sh_max_line_len
    then (insert_at p (key % 256) t, suc p)
    else (t, p)

insert_room :
    (c : ℕ) (s : Line)
    → IsLine s
    → s.cmd_len < sh_max_line_len
    → IsLine (insert c s) × (view (insert c s) ≡ (insert_at s.cmd_pos c (view s).0, suc s.cmd_pos))
unfolding insert
insert_room c s w h =
    let room : leb sh_max_line_len s.cmd_len ≡ false = ground arith in
    let in_buf : s.cmd_len < length s.cmd_buf = omega (arith, w.size, w.len_in) in
    rw room (
      record {
        size = length-insert s.cmd_pos s.cmd_len c s.cmd_buf w.pos_in in_buf ∙ w.size;
        pos_in = omega (arith, w.pos_in);
        len_in = omega arith;
      },
      ap (λ t. (t, suc s.cmd_pos)) (take-insert s.cmd_pos s.cmd_len c s.cmd_buf w.pos_in in_buf),
    )

insert_full : (c : ℕ) (s : Line) → sh_max_line_len ≤ s.cmd_len → insert c s ≡ s
unfolding insert
insert_full c s h = ground arith

delete_in :
    (where_ : ℕ) (s : Line)
    → IsLine s
    → where_ < s.cmd_len
    → (length (delete where_ s).cmd_buf ≡ suc sh_max_line_len)
      × ((view (delete where_ s)).0 ≡ remove_at where_ (view s).0)
unfolding delete
delete_in where_ s w h = (
  length-memmove where_ (suc where_) (s.cmd_len - where_) s.cmd_buf
        (omega (arith, w.size, w.len_in)) (omega (arith, w.size, w.len_in))
      ∙ w.size,
  take-delete where_ s.cmd_len (s.cmd_len - where_ - 1) s.cmd_buf (omega arith)
      (omega (arith, w.size, w.len_in)),
)

length-view : (s : Line) → IsLine s → length (view s).0 ≡ s.cmd_len
length-view s w = omega (arith, length-take s.cmd_len s.cmd_buf, w.size, w.len_in)

-- What a result must be: a line of its own, with the given view.
abbrev Shows : Line → List ℕ × ℕ → Type 0
Shows s v = IsLine s × (view s ≡ v)

at-Shows : (p : ℕ) (s : Line) → IsLine s → p ≤ s.cmd_len → Shows (at p s) ((view s).0, p)
at-Shows p s w h = (record { size = w.size; pos_in = h; len_in = w.len_in }, refl)

remove_at_end : (n : ℕ) (t : List ℕ) → n ≡ length t → remove_at n t ≡ t
remove_at_end n [] e = refl
remove_at_end zero (x ∷ t) e = absurd (omega (arith, e))
remove_at_end (suc n) (x ∷ t) e = ap (λ u. x ∷ u) (remove_at_end n t (omega (arith, e)))

left :
    (s : Line)
    → IsLine s
    → Shows (if ltb 0 s.cmd_pos then at (s.cmd_pos - 1) s else s) ((view s).0, s.cmd_pos - 1)
left s w = elim (Bool-cases (ltb 0 s.cmd_pos)) [
  | inl e ↦ rw e (at-Shows (s.cmd_pos - 1) s w (omega (arith, w.pos_in)))
  | inr e ↦ let z : s.cmd_pos - 1 ≡ s.cmd_pos = ground (arith, e) in rw (e, z) (w, refl)
]

right :
    (s : Line)
    → IsLine s
    → Shows
        (if ltb s.cmd_pos s.cmd_len then at (suc s.cmd_pos) s else s)
        ((view s).0, min (suc s.cmd_pos) (length (view s).0))
right s w = elim (Bool-cases (ltb s.cmd_pos s.cmd_len)) [
  | inl e ↦
      let z : min (suc s.cmd_pos) s.cmd_len ≡ suc s.cmd_pos = ground (arith, e) in
      rw (e, length-view s w, z) (at-Shows (suc s.cmd_pos) s w (ground (arith, e)))
  | inr e ↦
      let z : min (suc s.cmd_pos) s.cmd_len ≡ s.cmd_pos = ground (arith, e, w.pos_in) in
      rw (e, length-view s w, z) (w, refl)
]

delete_here :
    (s : Line)
    → IsLine s
    → Shows
        (if s.cmd_pos == s.cmd_len then s else delete s.cmd_pos s)
        (remove_at s.cmd_pos (view s).0, s.cmd_pos)
unfolding delete
delete_here s w = elim (Bool-cases (s.cmd_pos == s.cmd_len)) [
  | inl e ↦
      let z : s.cmd_pos ≡ length (view s).0 = ground (arith, e, length-view s w) in
      rw (e, remove_at_end s.cmd_pos (view s).0 z) (w, refl)
  | inr e ↦
      let h : s.cmd_pos < s.cmd_len = ground (arith, e, w.pos_in) in
      let (size, text) = delete_in s.cmd_pos s w h in
      rw e (
        record { size = size; pos_in = omega arith; len_in = omega (arith, w.len_in) },
        ap (λ t. (t, s.cmd_pos)) text,
      )
]

backspace :
    (s : Line)
    → IsLine s
    → Shows (if ltb 0 s.cmd_pos then at (s.cmd_pos - 1) (delete (s.cmd_pos - 1) s) else s) (
      (if s.cmd_pos == 0 then (view s).0 else remove_at (s.cmd_pos - 1) (view s).0),
      s.cmd_pos - 1,
    )
unfolding delete
backspace s w = elim (Bool-cases (ltb 0 s.cmd_pos)) [
  | inl e ↦
      let h : s.cmd_pos - 1 < s.cmd_len = ground (arith, e, w.pos_in) in
      let z : (s.cmd_pos == 0) ≡ false = ground (arith, e) in
      let (size, text) = delete_in (s.cmd_pos - 1) s w h in
      rw (e, z)
        (
          record {
            size = size;
            pos_in = omega (arith, w.pos_in);
            len_in = omega (arith, w.len_in);
          },
          ap (λ t. (t, s.cmd_pos - 1)) text,
        )
  | inr e ↦
      let z : (s.cmd_pos == 0) ≡ true = ground (arith, e) in
      let same : s.cmd_pos ≡ s.cmd_pos - 1 = ground (arith, e) in
      rw (e, z) (w, ap (λ p. (take s.cmd_len s.cmd_buf, p)) same)
]

type_in :
    (c : ℕ) (s : Line)
    → IsLine s
    → Shows (insert c s) (
        if ltb (length (view s).0) sh_max_line_len
        then (insert_at s.cmd_pos c (view s).0, suc s.cmd_pos)
        else view s)
type_in c s w = elim (Bool-cases (ltb s.cmd_len sh_max_line_len)) [
  | inl e ↦ rw (length-view s w, e) (insert_room c s w (ground (arith, e)))
  | inr e ↦ rw (length-view s w, e, insert_full c s (ground (arith, e))) (w, refl)
]

-- On a line within its bounds every key, but for those that end the line, does to the text what it
-- does in the abstract editor, and leaves the line within its bounds.
pub edit_lem :
    (key : ℕ) (s : Line)
    → IsLine s
    → IsLine (edit key s) × (view (edit key s) ≡ edit_text key (view s))
unfolding edit
edit_lem key s w = elim (Bool-cases (key == key_left)) [
  | inl e ↦ rw e (left s w)
  | inr l ↦ elim (Bool-cases (key == key_right)) [
    | inl e ↦ rw (l, e) (right s w)
    | inr r ↦ elim (Bool-cases (key == key_delete)) [
      | inl e ↦ rw (l, r, e) (delete_here s w)
      | inr d ↦ elim (Bool-cases (key == key_backspace)) [
        | inl e ↦ rw (l, r, d, e) (backspace s w)
        | inr b ↦ elim (Bool-cases (key == b'\t')) [
          | inl e ↦ rw (l, r, d, b, e) (w, refl)
          | inr t ↦ elim (Bool-cases (bit_and key escape_flag == 0)) [
            | inl e ↦ rw (l, r, d, b, t, e) (type_in (key % 256) s w)
            | inr e ↦ rw (l, r, d, b, t, e) (w, refl)
          ]
        ]
      ]
    ]
  ]
]
