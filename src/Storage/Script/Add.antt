-- ===== src/Storage/Script/Add.antt =====
-- storage_init_add of dev/storage-init.c appends a command to the script.
use mathlib.Core.Path.{subst}
use mathlib.Core.List.{append_assoc, append-nil}
use wrpc_sw.Prelude.{
  ℕ, suc, ◌+◌, ◌%◌, ◌/◌, ◌^◌, ◌≤◌, ◌<◌, ◌≡◌, refl, sym, ap, ◌∙◌, Bool, true, false, some, List, [],
  ◌∷◌, ◌++◌, length, length-append, get_or, ltb, arith,
}
use wrpc_sw.Storage.Script.{Area, header, separator, count_used, add_args, storage_init_add}
use wrpc_sw.Storage.Script.Read.{AllPlain, Holds, count_used_lem}

-- The text that is added for the arguments.
abbrev pub line_of : List (List ℕ) → List ℕ
line_of [] = []
line_of (arg ∷ args) = arg ++ (separator args ∷ line_of args)

module _ (fs : Area) where
  -- The file opens and holds the script, and what is behind it is erased.
  pub record HasScript (s : fs.Store) (script : List ℕ) : Type 0 where
    pub opens : fs.opens s ≡ true
    pub holds : Holds fs s header script
    pub free : (j : ℕ) → header + length script ≤ j → j < fs.size → fs.byte_at s j ≡ some 0xff

  Holds-kept :
      (s t : fs.Store) (i : ℕ) (bs : List ℕ)
      → ((j : ℕ) → i ≤ j → j < i + length bs → fs.byte_at t j ≡ fs.byte_at s j)
      → Holds fs s i bs
      → Holds fs t i bs
  Holds-kept s t i [] k h = tt
  Holds-kept s t i (b ∷ bs) k h = (
    k i (omega arith) (omega arith) ∙ h.0,
    Holds-kept s t (suc i) bs (λ j l m. k j (omega arith) (omega arith)) h.1,
  )

  pub Holds-append :
      (s : fs.Store) (i : ℕ) (xs ys : List ℕ)
      → Holds fs s i xs
      → Holds fs s (i + length xs) ys
      → Holds fs s i (xs ++ ys)
  Holds-append s i [] ys h k = let e : i + 0 ≡ i = omega arith in subst (λ j. Holds fs s j ys) e k
  Holds-append s i (x ∷ xs) ys h k =
      let e : i + suc (length xs) ≡ suc i + length xs = omega arith in
      (h.0, Holds-append s (suc i) xs ys h.1 (subst (λ j. Holds fs s j ys) e k))

  Holds-all :
      (s : fs.Store) (i : ℕ) (bs : List ℕ)
      → ((k : ℕ) → k < length bs → fs.byte_at s (i + k) ≡ some (get_or bs k 0))
      → Holds fs s i bs
  Holds-all s i [] a = tt
  Holds-all s i (b ∷ bs) a =
      let e : i ≡ i + 0 = omega arith in
      (
        ap (fs.byte_at s) e ∙ a 0 (omega arith),
        Holds-all s (suc i) bs (λ k l.
            let f : suc i + k ≡ i + suc k = omega arith in
            ap (fs.byte_at s) f ∙ a (suc k) (omega arith)),
      )

  -- A write behind the script.
  appended :
      (s : fs.Store) (script bs : List ℕ)
      → HasScript s script
      → header + length script + length bs ≤ fs.size
      → (fs.fwrite s (header + length script) bs).0 ≡ true
      → ((fs.fwrite s (header + length script) bs).0 ≡ true)
        × HasScript (fs.fwrite s (header + length script) bs).1 (script ++ bs)
  appended s script bs h l ok =
      let i = header + length script in
      let t = (fs.fwrite s i bs).1 in
      let longer : length (script ++ bs) ≡ length script + length bs = length-append script bs in
      (
        ok,
        record {
          opens = fs.write_opens s i bs ∙ h.opens;
          holds =
              Holds-append t header script bs
                (Holds-kept s t header script (λ j a b. fs.kept_before s i bs j b) h.holds)
                (Holds-all t i bs
                  (λ k m. fs.written s i bs k ok l m (h.free (i + k) (omega arith) (omega arith))));
          free = λ j a b.
              fs.kept_behind s i bs j (omega (arith, longer, a))
              ∙ h.free j (omega (arith, longer, a)) b;
        },
      )

  two_writes :
      (args : List (List ℕ)) (used' used'' : ℕ) (s t u : fs.Store) (arg : List ℕ) (used : ℕ)
      → fs.fwrite s (header + used) arg ≡ (true, t)
      → (used + length arg) % 2 ^ 16 ≡ used'
      → fs.fwrite t (header + used') (separator args ∷ []) ≡ (true, u)
      → (used' + 1) % 2 ^ 16 ≡ used''
      → add_args fs (arg ∷ args) used s ≡ add_args fs args used'' u
  unfolding add_args
  two_writes args used' used'' s t u arg used a b c d = ground (arith, a, b, c, d)

  -- What add_args gives for this result.
  abbrev Added : List ℕ → Bool × (ℕ × fs.Store) → Type 0
  Added script (ok, (used, t)) = (ok ≡ true) × (used ≡ length script) × HasScript t script

  add_args_lem :
      (args : List (List ℕ)) (script : List ℕ) (s : fs.Store)
      → ((t : fs.Store) (i : ℕ) (bs : List ℕ)
          → i + length bs ≤ fs.size
          → (fs.fwrite t i bs).0 ≡ true)
      → HasScript s script
      → header + length script + length (line_of args) ≤ fs.size
      → fs.size < 2 ^ 16
      → Added (script ++ line_of args) (add_args fs args (length script) s)
  add_args_lem [] script s writes h l small =
      subst (λ x. Added x (add_args fs [] (length script) s)) (sym (append-nil script))
        (unfold add_args in (refl, refl, h))
  add_args_lem (arg ∷ args) script s writes h l small =
      let fits : header + length script + length arg ≤ fs.size =
        omega (arith, length-append arg (separator args ∷ line_of args)) in
      let (ok, ht) = appended s script arg h fits (writes s (header + length script) arg fits) in
      let t = (fs.fwrite s (header + length script) arg).1 in
      let script' = script ++ arg in
      let n' : length script' ≡ length script + length arg = length-append script arg in
      let n'' : length (arg ++ (separator args ∷ line_of args))
          ≡ length arg + suc (length (line_of args)) =
        length-append arg (separator args ∷ line_of args) in
      let fits' : header + length script' + 1 ≤ fs.size = omega (arith, n', n'', l) in
      let (ok', hu) =
        appended t script' (separator args ∷ []) ht fits'
          (writes t (header + length script') (separator args ∷ []) fits') in
      let u = (fs.fwrite t (header + length script') (separator args ∷ [])).1 in
      let longer = script' ++ (separator args ∷ []) in
      let n : length longer ≡ length script' + 1 = length-append script' (separator args ∷ []) in
      let step =
        two_writes args (length script') (length longer) s t u arg (length script)
          (ap (λ b. (b, t)) ok) (omega (arith, n', n'', l, small)) (ap (λ b. (b, u)) ok')
          (omega (arith, n, n', n'', l, small)) in
      let rest = add_args_lem args longer u writes hu (omega (arith, n, n', n'', l)) small in
      let same : longer ++ line_of args ≡ script ++ line_of (arg ∷ args) =
        append_assoc script' (separator args ∷ []) (line_of args)
        ∙ append_assoc script arg (separator args ∷ line_of args) in
      subst (λ x. Added x (add_args fs (arg ∷ args) (length script) s)) same
        (subst (Added (longer ++ line_of args)) (sym step) rest)

  -- A write of the header.
  header_written :
      (s : fs.Store) (script : List ℕ) (a b : ℕ)
      → HasScript s script
      → HasScript (fs.fwrite s 0 (a ∷ b ∷ [])).1 script
  header_written s script a b h =
      let t = (fs.fwrite s 0 (a ∷ b ∷ [])).1 in
      record {
        opens = fs.write_opens s 0 (a ∷ b ∷ []) ∙ h.opens;
        holds =
            Holds-kept s t header script (λ j l m. fs.kept_behind s 0 (a ∷ b ∷ []) j (omega arith))
              h.holds;
        free = λ j l m. fs.kept_behind s 0 (a ∷ b ∷ []) j (omega arith) ∙ h.free j l m;
      }

  add_runs :
      (args : List (List ℕ)) (s t u : fs.Store) (n used b : ℕ)
      → fs.opens s ≡ true
      → count_used fs fs.size 0 s ≡ n
      → ltb 256 n ≡ false
      → add_args fs args n s ≡ (true, (used, t))
      → fs.fwrite t 0 (used % 2 ^ 8 ∷ used / 2 ^ 8 ∷ []) ≡ (true, u)
      → fs.byte_at u 1 ≡ some b
      → storage_init_add fs args s ≡ (true, u)
  unfolding storage_init_add
  add_runs args s t u n used b o c m a w r = ground (arith, o, c, m, a, w, r)

-- A script of up to 256 bytes gets a command, if there is room for it and no write inside the file fails: the arguments with spaces
-- between them and a newline behind the last one, after what was there; the rest stays erased.
pub storage_init_add_lem :
    (fs : Area) (args : List (List ℕ)) (script : List ℕ) (s : fs.Store)
    → ((t : fs.Store) (i : ℕ) (bs : List ℕ) → i + length bs ≤ fs.size → (fs.fwrite t i bs).0 ≡ true)
    → HasScript fs s script
    → AllPlain script
    → length script ≤ 256
    → header + length script < fs.size
    → header + length script + length (line_of args) ≤ fs.size
    → fs.size < 2 ^ 16
    → ((storage_init_add fs args s).0 ≡ true)
      × HasScript fs (storage_init_add fs args s).1 (script ++ line_of args)
storage_init_add_lem fs args script s writes h p short room l small =
    let n = length script in
    let zero_more : 0 + n ≡ n = omega arith in
    let place : header + 0 + n ≡ header + n = omega arith in
    let counted =
      count_used_lem fs fs.size 0 script s p h.holds
        (ap (fs.byte_at s) place ∙ h.free (header + n) (omega arith) room) (omega arith)
        (omega arith)
      ∙ zero_more in
    let r = add_args fs args n s in
    let (ok, size, ht) = add_args_lem fs args script s writes h l small in
    let t = r.1.1 in
    let word = r.1.0 % 2 ^ 8 ∷ r.1.0 / 2 ^ 8 ∷ [] in
    let u = (fs.fwrite t 0 word).1 in
    let (b, readback) = fs.inside u 1 (omega arith) in
    let whole =
      add_runs fs args s t u n r.1.0 b h.opens counted (ground arith) (ap (λ z. (z, (r.1.0, t))) ok)
        (ap (λ z. (z, u)) (writes t 0 word (omega arith))) readback in
    (
      ap (λ x. x.0) whole,
      subst (λ x. HasScript fs x (script ++ line_of args)) (sym (ap (λ x. x.1) whole))
          (header_written fs t (script ++ line_of args) (r.1.0 % 2 ^ 8) (r.1.0 / 2 ^ 8) ht),
    )
