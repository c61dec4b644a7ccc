-- ===== src/Minic/Frames.antt =====
-- How minic_rx_frame of dev/minic.c stores the words of a frame.
pub mod Whole
use wrpc_sw.Prelude.{
  ℕ, zero, suc, ◌+◌, ◌-◌, ◌*◌, ◌/◌, ◌%◌, ◌^◌, ◌≤◌, ◌<◌, ◌≡◌, refl, sym, ap, ◌∙◌, Bool, true, false,
  List, [], ◌∷◌, ◌++◌, take, drop, length, get_or, set, ltb, ◌==◌, if◌then◌else◌, arith, AllBytes,
}
use wrpc_sw.Minic.{
  FifoWord, WrfType, wrf_data, wrf_bytesel, Rx, store16, take_word, take_words, data_words,
}

abbrev pub word_of : List ℕ → ℕ
word_of mem = get_or mem 0 0 * 2 ^ 8 + get_or mem 1 0

-- k words stored from place j on.
pub put_words : ℕ → ℕ → List ℕ → List ℕ → List ℕ
put_words j zero src mem = mem
put_words j (suc k) src mem = put_words (suc j) k (drop 2 src) (store16 j (word_of src) mem)

store16_behind :
    (j w a b : ℕ) (mem : List ℕ) → store16 (suc j) w (a ∷ b ∷ mem) ≡ a ∷ b ∷ store16 j w mem
store16_behind j w a b mem =
    let e : 2 * suc j ≡ suc (suc (2 * j)) = omega arith in
    let f : suc (suc (2 * j)) + 1 ≡ suc (suc (2 * j + 1)) = omega arith in rw (e, f) refl

put_words_behind :
    (j k a b : ℕ) (src mem : List ℕ)
    → put_words (suc j) k src (a ∷ b ∷ mem) ≡ a ∷ b ∷ put_words j k src mem
unfolding put_words
put_words_behind j zero a b src mem = refl
put_words_behind j (suc k) a b src mem =
    ap (put_words (suc (suc j)) k (drop 2 src)) (store16_behind j (word_of src) a b mem)
    ∙ put_words_behind (suc j) k a b (drop 2 src) (store16 j (word_of src) mem)

-- The words stored at the front of the memory are the bytes they were made of.
pub put_words_front :
    (k : ℕ) (src mem : List ℕ)
    → AllBytes src
    → 2 * k ≤ length src
    → 2 * k ≤ length mem
    → put_words 0 k src mem ≡ take (2 * k) src ++ drop (2 * k) mem
unfolding put_words
put_words_front zero src mem a h m = refl
put_words_front (suc k) [] mem a h m = absurd (omega arith)
put_words_front (suc k) (x ∷ []) mem a h m = absurd (omega arith)
put_words_front (suc k) (x ∷ y ∷ src) [] a h m = absurd (omega arith)
put_words_front (suc k) (x ∷ y ∷ src) (u ∷ []) a h m = absurd (omega arith)
put_words_front (suc k) (x ∷ y ∷ src) (u ∷ v ∷ mem) a h m =
    let e : 2 * suc k ≡ suc (suc (2 * k)) = omega arith in
    let hi : (x * 2 ^ 8 + y) / 2 ^ 8 % 2 ^ 8 ≡ x = omega arith in
    let lo : (x * 2 ^ 8 + y) % 2 ^ 8 ≡ y = omega arith in
    rw (e, hi, lo)
      (put_words_behind 0 k x y src mem
        ∙ ap (λ t. x ∷ y ∷ t) (put_words_front k src mem a.1.1 (omega arith) (omega arith)))

drop_none : (n : ℕ) → drop {A = ℕ} n [] ≡ []
drop_none zero = refl
drop_none (suc n) = refl

drop_two : (n : ℕ) (xs : List ℕ) → drop n (drop 2 xs) ≡ drop (suc (suc n)) xs
drop_two n [] = drop_none n
drop_two n (x ∷ []) = drop_none n
drop_two n (x ∷ y ∷ xs) = refl

pub put_words_snoc :
    (j k : ℕ) (src mem : List ℕ)
    → put_words j (suc k) src mem
      ≡ store16 (j + k) (word_of (drop (2 * k) src)) (put_words j k src mem)
unfolding put_words
put_words_snoc j zero src mem = let e : j + 0 ≡ j = omega arith in rw e refl
put_words_snoc j (suc k) src mem =
    let e : j + suc k ≡ suc j + k = omega arith in
    let twice : suc (suc (2 * k)) ≡ 2 * suc k = omega arith in
    let f : drop (2 * k) (drop 2 src) ≡ drop (2 * suc k) src =
      drop_two (2 * k) src ∙ ap (λ n. drop n src) twice in
    rw e (
      put_words_snoc (suc j) k (drop 2 src) (store16 j (word_of src) mem)
      ∙ ap
          (λ t.
            store16 (suc j + k) (word_of t)
              (put_words (suc j) k (drop 2 src) (store16 j (word_of src) mem)))
          f)

pub take_words_more :
    (buf_size : ℕ) (w : FifoWord) (ws : List FifoWord) (s s' : Rx)
    → take_word buf_size w s ≡ (false, s')
    → take_words buf_size (w ∷ ws) s ≡ take_words buf_size ws s'
unfolding take_words
take_words_more buf_size w ws s s' e = ground (arith, e)

take_header :
    (buf_size w : ℕ) (s : Rx)
    → s.hdr_size < 14
    → take_word buf_size (record { type = wrf_data; dat = w }) s
      ≡ (false, record s { hdr = store16 (s.hdr_size / 2) w s.hdr; hdr_size = s.hdr_size + 2 })
unfolding take_word
take_header buf_size w s h = ground arith

take_payload :
    (buf_size w : ℕ) (s : Rx)
    → s.hdr_size ≡ 14
    → s.payload_size ≤ buf_size
    → buf_size < 2 ^ 31
    → take_word buf_size (record { type = wrf_data; dat = w }) s ≡ (
      false,
      record s { mem = store16 (s.payload_size / 2) w s.mem; payload_size = s.payload_size + 2 },
    )
unfolding take_word
take_payload buf_size w s h l b = ground arith

abbrev pub in_header : Rx → ℕ → List ℕ → Rx
in_header s j hdr = record s { hdr = hdr; hdr_size = 2 * j }

abbrev pub in_payload : Rx → ℕ → List ℕ → Rx
in_payload s j mem = record s { hdr_size = 14; mem = mem; payload_size = 2 * j }

pub header_loop :
    (buf_size k j : ℕ) (src hdr : List ℕ) (ws : List FifoWord) (s : Rx)
    → j + k ≤ 7
    → take_words buf_size (data_words k src ++ ws) (in_header s j hdr)
      ≡ take_words buf_size ws (in_header s (j + k) (put_words j k src hdr))
unfolding data_words put_words
header_loop buf_size zero j src hdr ws s h = let e : j + 0 ≡ j = omega arith in rw e refl
header_loop buf_size (suc k) j src hdr ws s h =
    let w : FifoWord = record { type = wrf_data; dat = word_of src } in
    let half : 2 * j / 2 ≡ j = omega arith in
    let twice : 2 * j + 2 ≡ 2 * suc j = omega arith in
    let more : suc j + k ≡ j + suc k = omega arith in
    let taken : take_word buf_size w (in_header s j hdr)
        ≡ (false, in_header s (suc j) (store16 j (word_of src) hdr)) =
      take_header buf_size (word_of src) (in_header s j hdr) (omega arith)
      ∙ rw (half, twice) refl in
    take_words_more buf_size w (data_words k (drop 2 src) ++ ws) (in_header s j hdr)
      (in_header s (suc j) (store16 j (word_of src) hdr)) taken
    ∙ header_loop buf_size k (suc j) (drop 2 src) (store16 j (word_of src) hdr) ws s (omega arith)
    ∙ rw more refl

pub payload_loop :
    (buf_size k j : ℕ) (src mem : List ℕ) (ws : List FifoWord) (s : Rx)
    → 2 * (j + k) ≤ buf_size + 2
    → buf_size < 2 ^ 31
    → take_words buf_size (data_words k src ++ ws) (in_payload s j mem)
      ≡ take_words buf_size ws (in_payload s (j + k) (put_words j k src mem))
unfolding data_words put_words
payload_loop buf_size zero j src mem ws s h b = let e : j + 0 ≡ j = omega arith in rw e refl
payload_loop buf_size (suc k) j src mem ws s h b =
    let w : FifoWord = record { type = wrf_data; dat = word_of src } in
    let half : 2 * j / 2 ≡ j = omega arith in
    let twice : 2 * j + 2 ≡ 2 * suc j = omega arith in
    let more : suc j + k ≡ j + suc k = omega arith in
    let taken : take_word buf_size w (in_payload s j mem)
        ≡ (false, in_payload s (suc j) (store16 j (word_of src) mem)) =
      take_payload buf_size (word_of src) (in_payload s j mem) refl (omega arith) b
      ∙ rw (half, twice) refl in
    take_words_more buf_size w (data_words k (drop 2 src) ++ ws) (in_payload s j mem)
      (in_payload s (suc j) (store16 j (word_of src) mem)) taken
    ∙ payload_loop buf_size k (suc j) (drop 2 src) (store16 j (word_of src) mem) ws s (omega arith)
        b
    ∙ rw more refl
