-- ===== src/Storage/Sfp/Entries.antt =====
-- An entry of the SFP database of dev/storage-sfp.c as bytes, and back.
use mathlib.Core.Path.{subst}
use mathlib.Core.List.{append_assoc}
use wrpc_sw.Prelude.{
  ℕ, zero, suc, ◌+◌, ◌*◌, ◌/◌, ◌%◌, ◌^◌, ◌<◌, ◌≡◌, refl, sym, ap, ◌∙◌, true, List, [], ◌∷◌, ◌++◌,
  take, drop, length, length-append, get_or, arith,
}
use wrpc_sw.Ip.Bytes.{take-length-append}
use wrpc_sw.Storage.Sfp.{
  SfpInfo, hton, ntoh, sum_bytes, summed, packed, unpacked, sfp_valid, sfp_pn_len,
}

-- Its name fills its 16 bytes and has no 0xff, and its numbers fit their words.
pub record IsSfp (sfp : SfpInfo) : Type 0 where
  pub name : length sfp.pn ≡ sfp_pn_len
  pub valid : sfp_valid sfp_pn_len sfp.pn ≡ true
  pub alpha : sfp.alpha < 2 ^ 64
  pub d_tx : sfp.d_tx < 2 ^ 32
  pub d_rx : sfp.d_rx < 2 ^ 32

-- n bytes are enough for the word.
abbrev Fits : ℕ → ℕ → Type 0
Fits zero w = w ≡ 0
Fits (suc n) w = Fits n (w / 2 ^ 8)

length-hton : (n w : ℕ) → length (hton n w) ≡ n
unfolding hton
length-hton zero w = refl
length-hton (suc n) w =
    length-append (hton n (w / 2 ^ 8)) (w % 2 ^ 8 ∷ []) ∙ omega (arith, length-hton n (w / 2 ^ 8))

ntoh-append : (w : ℕ) (xs : List ℕ) (b : ℕ) → ntoh w (xs ++ b ∷ []) ≡ ntoh w xs * 2 ^ 8 + b
unfolding ntoh
ntoh-append w [] b = refl
ntoh-append w (x ∷ xs) b = ntoh-append (w * 2 ^ 8 + x) xs b

ntoh-hton : (n w : ℕ) → Fits n w → ntoh 0 (hton n w) ≡ w
unfolding ntoh hton
ntoh-hton zero w f = sym f
ntoh-hton (suc n) w f =
    let e : ntoh 0 (hton n (w / 2 ^ 8)) ≡ w / 2 ^ 8 = ntoh-hton n (w / 2 ^ 8) f in
    ntoh-append 0 (hton n (w / 2 ^ 8)) (w % 2 ^ 8) ∙ omega (arith, e)

word32-Fits : (w : ℕ) → w < 2 ^ 32 → Fits 4 w
word32-Fits w l = omega arith

word64-Fits : (w : ℕ) → w < 2 ^ 64 → Fits 8 w
word64-Fits w l = omega arith

module _ (xs ys : List ℕ) (n : ℕ) (e : length xs ≡ n) where
  take-front : take n (xs ++ ys) ≡ xs
  take-front = subst (λ k. take k (xs ++ ys) ≡ xs) e (take-length-append xs ys)

drop-append : (xs ys : List ℕ) (m : ℕ) → drop (length xs + m) (xs ++ ys) ≡ drop m ys
drop-append [] ys m = let e : 0 + m ≡ m = omega arith in ap (λ k. drop k ys) e
drop-append (x ∷ xs) ys m =
    let e : suc (length xs) + m ≡ suc (length xs + m) = omega arith in
    ap (λ k. drop k (x ∷ xs ++ ys)) e ∙ drop-append xs ys m

drop-past : (xs ys : List ℕ) (n m : ℕ) → length xs ≡ n → drop (n + m) (xs ++ ys) ≡ drop m ys
drop-past xs ys n m e = subst (λ k. drop (k + m) (xs ++ ys) ≡ drop m ys) e (drop-append xs ys m)

get_or-behind : (xs : List ℕ) (b : ℕ) (n : ℕ) → length xs ≡ n → get_or (xs ++ b ∷ []) n 0 ≡ b
get_or-behind [] b n e = let f : 0 ≡ n = e in subst (λ k. get_or (b ∷ []) k 0 ≡ b) f refl
get_or-behind (x ∷ xs) b n e =
    subst (λ k. get_or (x ∷ xs ++ b ∷ []) k 0 ≡ b) e (get_or-behind xs b (length xs) refl)

sfp_valid-append :
    (n : ℕ) (xs ys : List ℕ) → length xs ≡ n → sfp_valid n (xs ++ ys) ≡ sfp_valid n xs
unfolding sfp_valid
sfp_valid-append zero xs ys e = refl
sfp_valid-append (suc n) [] ys e = ground (arith, e)
sfp_valid-append (suc n) (x ∷ xs) ys e = rw (sfp_valid-append n xs ys (omega (arith, e))) refl

module _ (sfp : SfpInfo) (p : IsSfp sfp) where
  length-numbers : length (hton 8 sfp.alpha ++ (hton 4 sfp.d_tx ++ hton 4 sfp.d_rx)) ≡ 16
  length-numbers =
      let a = length-append (hton 8 sfp.alpha) (hton 4 sfp.d_tx ++ hton 4 sfp.d_rx) in
      let b = length-append (hton 4 sfp.d_tx) (hton 4 sfp.d_rx) in
      omega (arith, a, b, length-hton 8 sfp.alpha, length-hton 4 sfp.d_tx, length-hton 4 sfp.d_rx)

  length-summed : length (summed sfp) ≡ 32
  unfolding summed
  length-summed =
      length-append sfp.pn (hton 8 sfp.alpha ++ (hton 4 sfp.d_tx ++ hton 4 sfp.d_rx))
      ∙ omega (arith, p.name, length-numbers)

  pub length-packed : length (packed sfp) ≡ 33
  unfolding packed
  length-packed =
      length-append (summed sfp) (sum_bytes (summed sfp) % 2 ^ 8 ∷ [])
      ∙ omega (arith, length-summed)

  pub sfp_valid-packed : sfp_valid sfp_pn_len (packed sfp) ≡ true
  unfolding packed summed
  sfp_valid-packed =
      let numbers = hton 8 sfp.alpha ++ (hton 4 sfp.d_tx ++ hton 4 sfp.d_rx) in
      let check = sum_bytes (summed sfp) % 2 ^ 8 ∷ [] in
      ap (sfp_valid 16) (append_assoc sfp.pn numbers check)
      ∙ sfp_valid-append 16 sfp.pn (numbers ++ check) p.name
      ∙ p.valid

  -- Its checksum is right.
  pub checksum-packed : sum_bytes (take 32 (packed sfp)) % 2 ^ 8 ≡ get_or (packed sfp) 32 0
  unfolding packed
  checksum-packed =
      let c = sum_bytes (summed sfp) % 2 ^ 8 in
      ap (λ bs. sum_bytes bs % 2 ^ 8) (take-front (summed sfp) (c ∷ []) 32 length-summed)
      ∙ sym (get_or-behind (summed sfp) c 32 length-summed)

  -- The bytes of an entry give its name and its parameters back.
  pub unpacked-packed :
      unpacked (packed sfp) ≡ record sfp { chksum = sum_bytes (summed sfp) % 2 ^ 8 }
  unfolding packed summed unpacked
  unpacked-packed =
      let c = sum_bytes (summed sfp) % 2 ^ 8 in
      let a8 = hton 8 sfp.alpha in
      let t4 = hton 4 sfp.d_tx in
      let r4 = hton 4 sfp.d_rx in
      let rest = t4 ++ (r4 ++ c ∷ []) in
      let flat : packed sfp ≡ sfp.pn ++ (a8 ++ rest) =
        append_assoc sfp.pn (a8 ++ (t4 ++ r4)) (c ∷ [])
        ∙ ap (λ t. sfp.pn ++ t) (append_assoc a8 (t4 ++ r4) (c ∷ []))
        ∙ ap (λ t. sfp.pn ++ (a8 ++ t)) (append_assoc t4 r4 (c ∷ [])) in
      let at16 : drop 16 (packed sfp) ≡ a8 ++ rest =
        ap (drop 16) flat ∙ drop-past sfp.pn (a8 ++ rest) 16 0 p.name in
      let at24 : drop 24 (packed sfp) ≡ rest =
        ap (drop 24) flat
        ∙ drop-past sfp.pn (a8 ++ rest) 16 8 p.name
        ∙ drop-past a8 rest 8 0 (length-hton 8 sfp.alpha) in
      let at28 : drop 28 (packed sfp) ≡ r4 ++ c ∷ [] =
        ap (drop 28) flat
        ∙ drop-past sfp.pn (a8 ++ rest) 16 12 p.name
        ∙ drop-past a8 rest 8 4 (length-hton 8 sfp.alpha)
        ∙ drop-past t4 (r4 ++ c ∷ []) 4 0 (length-hton 4 sfp.d_tx) in
      let name : take 16 (packed sfp) ≡ sfp.pn =
        ap (take 16) flat ∙ take-front sfp.pn (a8 ++ rest) 16 p.name in
      let alpha : ntoh 0 (take 8 (drop 16 (packed sfp))) ≡ sfp.alpha =
        ap (λ t. ntoh 0 (take 8 t)) at16
        ∙ ap (ntoh 0) (take-front a8 rest 8 (length-hton 8 sfp.alpha))
        ∙ ntoh-hton 8 sfp.alpha (word64-Fits sfp.alpha p.alpha) in
      let d_tx : ntoh 0 (take 4 (drop 24 (packed sfp))) ≡ sfp.d_tx =
        ap (λ t. ntoh 0 (take 4 t)) at24
        ∙ ap (ntoh 0) (take-front t4 (r4 ++ c ∷ []) 4 (length-hton 4 sfp.d_tx))
        ∙ ntoh-hton 4 sfp.d_tx (word32-Fits sfp.d_tx p.d_tx) in
      let d_rx : ntoh 0 (take 4 (drop 28 (packed sfp))) ≡ sfp.d_rx =
        ap (λ t. ntoh 0 (take 4 t)) at28
        ∙ ap (ntoh 0) (take-front r4 (c ∷ []) 4 (length-hton 4 sfp.d_rx))
        ∙ ntoh-hton 4 sfp.d_rx (word32-Fits sfp.d_rx p.d_rx) in
      let check : get_or (packed sfp) 32 0 ≡ c = get_or-behind (summed sfp) c 32 length-summed in
      λ i. record { pn = name i; alpha = alpha i; d_tx = d_tx i; d_rx = d_rx i; chksum = check i }
