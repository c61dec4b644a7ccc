-- ===== src/Examples/Sfps.antt =====
-- The SFP database in a memory of 512 bytes.
use wrpc_sw.Prelude.{
  ◌^◌, ℕ, zero, suc, ◌+◌, ◌-◌, ◌≤◌, ◌<◌, ◌≡◌, refl, ap, ◌∙◌, true, false, List, [], ◌∷◌, leb, ltb,
  get_or, length, replicate, min, arith,
}
use wrpc_sw.Examples.Scripts.{fwrite}
use wrpc_sw.Storage.Sfp.{SfpInfo, SfpFile}
use wrpc_sw.Storage.Sfp.Add.{written}

abbrev bytes_at : ℕ → ℕ → (ℕ → ℕ) → List ℕ
bytes_at zero j s = []
bytes_at (suc n) j s = s j ∷ bytes_at n (suc j) s

abbrev fread : (ℕ → ℕ) → ℕ → ℕ → List ℕ
fread s j n = bytes_at (min n (512 - j)) j s

length-bytes_at : (n j : ℕ) (s : ℕ → ℕ) → length (bytes_at n j s) ≡ n
length-bytes_at zero j s = refl
length-bytes_at (suc n) j s = ap suc (length-bytes_at n (suc j) s)

bytes_at_same :
    (n j : ℕ) (s t : ℕ → ℕ)
    → ((k : ℕ) → j ≤ k → k < j + n → t k ≡ s k)
    → bytes_at n j t ≡ bytes_at n j s
bytes_at_same zero j s t a = refl
bytes_at_same (suc n) j s t a =
    let rest : bytes_at n (suc j) t ≡ bytes_at n (suc j) s =
      bytes_at_same n (suc j) s t (λ k l m. a k (omega arith) (omega arith)) in
    rw (a j (omega arith) (omega arith), rest) refl

bytes_at_are :
    (bs : List ℕ) (j : ℕ) (s : ℕ → ℕ)
    → ((k : ℕ) → k < length bs → s (j + k) ≡ get_or bs k 0)
    → bytes_at (length bs) j s ≡ bs
bytes_at_are [] j s a = refl
bytes_at_are (b ∷ bs) j s a =
    let e : j ≡ j + 0 = omega arith in
    let rest : bytes_at (length bs) (suc j) s ≡ bs =
      bytes_at_are bs (suc j) s
        (λ k l. let f : suc j + k ≡ j + suc k = omega arith in ap s f ∙ a (suc k) (omega arith)) in
    rw (ap s e ∙ a 0 (omega arith), rest) refl

erased_lem : (n j : ℕ) → bytes_at n j (λ i. 0xff) ≡ replicate n 0xff
erased_lem zero j = refl
erased_lem (suc n) j = ap (λ t. 0xff ∷ t) (erased_lem n (suc j))

writes_lem : (s : ℕ → ℕ) (i : ℕ) (bs : List ℕ) → i + length bs ≤ 512 → (fwrite s i bs).0 ≡ true
writes_lem s i bs l = ground arith

byte_written :
    (s : ℕ → ℕ) (i : ℕ) (bs : List ℕ) (k : ℕ)
    → k < length bs
    → (fwrite s i bs).1 (i + k) ≡ get_or bs k 0
byte_written s i bs k l =
    let e : i + k - i ≡ k = omega arith in
    let low : leb i (i + k) ≡ true = ground arith in
    let high : ltb (i + k) (i + length bs) ≡ true = ground arith in rw (low, high, e) refl

reads_back :
    (s : ℕ → ℕ) (i : ℕ) (bs : List ℕ)
    → i + length bs ≤ 512
    → fread (fwrite s i bs).1 i (length bs) ≡ bs
reads_back s i bs l =
    let n : min (length bs) (512 - i) ≡ length bs = omega arith in
    ap (λ k. bytes_at k i (fwrite s i bs).1) n
    ∙ bytes_at_are bs i (fwrite s i bs).1 (λ k m. byte_written s i bs k m)

kept_before :
    (s : ℕ → ℕ) (i : ℕ) (bs : List ℕ) (j n : ℕ)
    → j + n ≤ i
    → fread (fwrite s i bs).1 j n ≡ fread s j n
kept_before s i bs j n l =
    bytes_at_same (min n (512 - j)) j s (fwrite s i bs).1
      (λ k a b. let low : leb i k ≡ false = ground arith in rw low refl)

kept_behind :
    (s : ℕ → ℕ) (i : ℕ) (bs : List ℕ) (j n : ℕ)
    → i + length bs ≤ j
    → fread (fwrite s i bs).1 j n ≡ fread s j n
kept_behind s i bs j n l = bytes_at_same (min n (512 - j)) j s (fwrite s i bs).1 (λ k a b.
    let low : leb i k ≡ true = ground arith in
    let high : ltb k (i + length bs) ≡ false = ground arith in rw (low, high) refl)

short_read : (s : ℕ → ℕ) (j n : ℕ) → 0 < n → 512 < j + n → length (fread s j n) < n
short_read s j n z l = omega (arith, length-bytes_at (min n (512 - j)) j s)

erased_bytes : (j n : ℕ) → j + n ≤ 512 → fread (λ i. 0xff) j n ≡ replicate n 0xff
erased_bytes j n l =
    let e : min n (512 - j) ≡ n = omega arith in
    erased_lem (min n (512 - j)) j ∙ ap (λ k. replicate k 0xff) e

abbrev memory : SfpFile
memory = record {
  Store = ℕ → ℕ;
  opens = λ s. true;
  size = 512;
  fread = fread;
  fwrite = fwrite;
  ferase = λ s. (true, λ i. 0xff);
  write_opens = λ s i bs. refl;
  writes = writes_lem;
  reads_back = λ s i bs l e. reads_back s i bs l;
  kept_before = kept_before;
  kept_behind = kept_behind;
  erase_opens = λ s. refl;
  erased = λ s j n e l. erased_bytes j n l;
  short_read = short_read;
}

abbrev name : ℕ → List ℕ
name c = b'S' ∷ b'F' ∷ b'P' ∷ c ∷ replicate 12 0

abbrev blue : SfpInfo
blue = record { pn = name b'b'; alpha = 73685416; d_tx = 180625; d_rx = 148451; chksum = 0 }

abbrev violet : SfpInfo
violet = record {
  pn = name b'v';
  alpha = 2 ^ 64 - 73685416;
  d_tx = 180707;
  d_rx = 149083;
  chksum = 0;
}

abbrev recalibrated : SfpInfo
recalibrated = record { pn = name b'b'; alpha = 73685416; d_tx = 180700; d_rx = 148400; chksum = 0 }

abbrev one_sfp : ℕ → ℕ
one_sfp = written memory (λ i. 0xff) blue []
