-- ===== src/Minic/Frames/Whole.antt =====
-- A whole frame through the FIFO: what minic_tx_frame of dev/minic.c writes, minic_rx_frame reads.
use mathlib.Core.List.{append_assoc}
use mathlib.Core.Path.{subst}
use wrpc_sw.Prelude.{
  ℕ, zero, suc, ◌+◌, ◌*◌, ◌/◌, ◌%◌, ◌^◌, ◌≤◌, ◌<◌, bit_and, bit_or, ◌≡◌, refl, sym, ap, ◌∙◌, true,
  false, List, [], ◌∷◌, ◌++◌, take, drop, length, get_or, ◌==◌, if◌then◌else◌, arith, AllBytes, inl,
  inr, Bool-cases, not,
}
use wrpc_sw.Prelude.Int.{pos}
use wrpc_sw.Minic.{
  FifoWord, wrf_bytesel, wrf_oob, HwTimestamp, Minic, Received, Rx, store16, start_rx, take_word,
  take_words, data_words, payload_words, tx_status, tx_words, padded, header_size, finish_rx,
  minic_rx_frame, rx_timestamp,
}
use wrpc_sw.Minic.Frames.{
  word_of, put_words, put_words_front, put_words_snoc, take_words_more, in_header, in_payload,
  header_loop, payload_loop,
}

pub take_front : (n m : ℕ) (p q : List ℕ) → n ≤ m → m ≤ length p → take n (take m p ++ q) ≡ take n p
take_front zero m p q h l = refl
take_front (suc n) zero p q h l = absurd (omega arith)
take_front (suc n) (suc m) [] q h l = absurd (omega arith)
take_front (suc n) (suc m) (x ∷ p) q h l =
    ap (λ t. x ∷ t) (take_front n m p q (omega arith) (omega arith))

pub take_all : (n : ℕ) (p : List ℕ) → length p ≡ n → take n p ++ [] ≡ p
take_all zero [] e = refl
take_all zero (x ∷ p) e = absurd (omega arith)
take_all (suc n) [] e = absurd (omega arith)
take_all (suc n) (x ∷ p) e = ap (λ t. x ∷ t) (take_all n p (omega arith))

pub drop_all : (n : ℕ) (p : List ℕ) → length p ≡ n → drop n p ≡ []
drop_all zero [] e = refl
drop_all zero (x ∷ p) e = absurd (omega arith)
drop_all (suc n) [] e = refl
drop_all (suc n) (x ∷ p) e = drop_all n p (omega arith)

-- The receiver's three words behind a frame: the header and the two halves of the raw timestamp.
abbrev pub oob_words : ℕ → ℕ → ℕ → List FifoWord
oob_words a b c =
    record { type = wrf_oob; dat = a }
    ∷ record { type = wrf_oob; dat = b }
    ∷ record { type = wrf_oob; dat = c }
    ∷ []

abbrev pub with_oob : Rx → ℕ → ℕ → ℕ → Rx
with_oob s a b c = record s { oob_cnt = 3; oob_hdr = a; raw_ts = bit_or (b * 2 ^ 16) c }

take_oobs :
    (buf_size a b c : ℕ) (s : Rx)
    → s.oob_cnt ≡ 0
    → s.payload_size ≤ buf_size
    → take_words buf_size (oob_words a b c) s ≡ ([], with_oob s a b c)
unfolding take_words take_word
take_oobs buf_size a b c s z l = ground arith

take_bytesel :
    (buf_size w : ℕ) (s : Rx)
    → s.payload_size ≤ buf_size
    → buf_size < 2 ^ 31
    → take_word buf_size (record { type = wrf_bytesel; dat = w }) s ≡ (
      false,
      record s { mem = store16 (s.payload_size / 2) w s.mem; payload_size = s.payload_size + 1 },
    )
unfolding take_word
take_bytesel buf_size w s l b = ground arith

abbrev pub with_payload : Rx → ℕ → List ℕ → Rx
with_payload s n mem = record s { hdr_size = 14; mem = mem; payload_size = n }

get_or-drop : (i j : ℕ) (p : List ℕ) → get_or p (i + j) 0 ≡ get_or (drop i p) j 0
get_or-drop zero j p = let e : 0 + j ≡ j = omega arith in rw e refl
get_or-drop (suc i) j [] = refl
get_or-drop (suc i) j (x ∷ p) =
    let e : suc i + j ≡ suc (i + j) = omega arith in rw e (get_or-drop i j p)

-- The last byte's word.
abbrev word_at : ℕ → List ℕ → ℕ
word_at i p = get_or p i 0 * 2 ^ 8 + get_or p (i + 1) 0

word_at-drop : (i : ℕ) (p : List ℕ) → word_at i p ≡ word_of (drop i p)
word_at-drop i p =
    let e : i ≡ i + 0 = omega arith in
    ap (λ j. get_or p j 0 * 2 ^ 8 + get_or p (i + 1) 0) e
    ∙ rw (get_or-drop i 0 p, get_or-drop i 1 p) refl

abbrev last_byte : ℕ → List ℕ → FifoWord
last_byte n p = record { type = wrf_bytesel; dat = word_at (2 * (n / 2)) p }

odd_taken :
    (buf_size k : ℕ) (p mem : List ℕ) (ws : List FifoWord) (s : Rx)
    → 2 * k < buf_size
    → buf_size < 2 ^ 31
    → take_words buf_size
        (record { type = wrf_bytesel; dat = word_at (2 * k) p } ∷ ws)
        (in_payload s k (put_words 0 k p mem))
      ≡ take_words buf_size ws (with_payload s (2 * k + 1) (put_words 0 (suc k) p mem))
odd_taken buf_size k p mem ws s l b =
    let w : FifoWord = record { type = wrf_bytesel; dat = word_at (2 * k) p } in
    let old = put_words 0 k p mem in
    let place : 2 * k / 2 ≡ k = omega arith in
    let same : k ≡ 0 + k = omega arith in
    let stored : store16 (2 * k / 2) w.dat old ≡ put_words 0 (suc k) p mem =
      ap (λ j. store16 j w.dat old) (place ∙ same)
      ∙ ap (λ d. store16 (0 + k) d old) (word_at-drop (2 * k) p)
      ∙ sym (put_words_snoc 0 k p mem) in
    take_words_more buf_size w ws (in_payload s k old)
      (with_payload s (2 * k + 1) (put_words 0 (suc k) p mem))
      (take_bytesel buf_size w.dat (in_payload s k old) (omega arith) b
        ∙ ap (λ m. (false, with_payload s (2 * k + 1) m)) stored)

payload_taken :
    (buf_size n : ℕ) (p mem : List ℕ) (ws : List FifoWord) (s : Rx)
    → n ≤ buf_size
    → buf_size < 2 ^ 31
    → take_words buf_size (payload_words n p ++ ws) (in_payload s 0 mem)
      ≡ take_words buf_size ws (with_payload s n (put_words 0 ((n + 1) / 2) p mem))
unfolding payload_words
payload_taken buf_size n p mem ws s l b = elim (Bool-cases (n % 2 == 0)) [
  | inl even ↦
      let size : 2 * (0 + k) ≡ n = ground (arith, even) in
      let words : (n + 1) / 2 ≡ k = ground (arith, even) in
      ap (λ t. take_words buf_size ((data_words k p ++ t) ++ ws) start)
        (ap (λ e. if e then [] else (last_byte n p ∷ [])) even)
      ∙ ap (λ t. take_words buf_size t start) (append_assoc (data_words k p) [] ws)
      ∙ payload_loop buf_size k 0 p mem ws s (omega arith) b
      ∙ rw (size, words) refl
  | inr odd ↦
      let size : 2 * k + 1 ≡ n = ground (arith, odd) in
      let words : (n + 1) / 2 ≡ suc k = ground (arith, odd) in
      let same : 0 + k ≡ k = omega arith in
      ap (λ t. take_words buf_size ((data_words k p ++ t) ++ ws) start)
        (ap (λ e. if e then [] else (last_byte n p ∷ [])) odd)
      ∙ ap (λ t. take_words buf_size t start)
          (append_assoc (data_words k p) (last_byte n p ∷ []) ws)
      ∙ payload_loop buf_size k 0 p mem (last_byte n p ∷ ws) s (omega arith) b
      ∙ ap (λ j. take_words buf_size (last_byte n p ∷ ws) (in_payload s j (put_words 0 k p mem)))
          same
      ∙ odd_taken buf_size k p mem ws s (omega (arith, size)) b
      ∙ rw (size, words) refl
]
  where
    k : ℕ
    k = n / 2

    start : Rx
    start = in_payload s 0 mem

pub skipped :
    (buf_size : ℕ) (hdr mem : List ℕ)
    → take_word buf_size tx_status (start_rx hdr mem) ≡ (false, start_rx hdr mem)
unfolding take_word
skipped buf_size hdr mem = ground arith

-- The frame's words as they come out of the FIFO.
abbrev pub frame : List ℕ → List ℕ → (n a b c : ℕ) → List FifoWord
frame h p n a b c = tx_status ∷ (data_words 7 h ++ (payload_words n p ++ oob_words a b c))

module _ (buf_size : ℕ) (h p hdr mem : List ℕ) (n a b c : ℕ) where
  abbrev pub taken : Rx
  taken = with_oob (with_payload (start_rx h mem) n (put_words 0 ((n + 1) / 2) p mem)) a b c

  frame-taken :
      AllBytes h
      → length h ≡ 14
      → length hdr ≡ 14
      → n ≤ buf_size
      → buf_size < 2 ^ 31
      → take_words buf_size (frame h p n a b c) (start_rx hdr mem) ≡ ([], taken)
  frame-taken ah eh ehdr l small =
      let start = start_rx hdr mem in
      let header : put_words 0 7 h hdr ≡ h =
        put_words_front 7 h hdr ah (omega (arith, eh)) (omega (arith, ehdr))
        ∙ ap (λ t. take 14 h ++ t) (drop_all 14 hdr ehdr)
        ∙ take_all 14 h eh in
      let behind = payload_words n p ++ oob_words a b c in
      take_words_more buf_size tx_status (data_words 7 h ++ behind) start start
        (skipped buf_size hdr mem)
      ∙ header_loop buf_size 7 0 h hdr behind start (omega arith)
      ∙ ap (λ t. take_words buf_size behind (in_header start 7 t)) header
      ∙ payload_taken buf_size n p mem (oob_words a b c) (start_rx h mem) l small
      ∙ take_oobs buf_size a b c (with_payload (start_rx h mem) n (put_words 0 ((n + 1) / 2) p mem))
          refl l

pub received :
    (buf_size sec counter_ppsg : ℕ) (hwts : HwTimestamp) (nic : Minic) (w : FifoWord)
    (ws : List FifoWord) (hdr mem : List ℕ) (s : Rx)
    → nic.ver_supported ≡ true
    → take_words buf_size (w ∷ ws) (start_rx hdr mem) ≡ ([], s)
    → minic_rx_frame buf_size sec counter_ppsg hwts nic (w ∷ ws) hdr mem
      ≡ finish_rx buf_size sec counter_ppsg hwts nic [] s
unfolding minic_rx_frame
received buf_size sec counter_ppsg hwts nic w ws hdr mem s v e =
    let late = λ (r : List FifoWord × Rx). finish_rx buf_size sec counter_ppsg hwts nic r.0 r.1 in
    let early : Received = record {
      result = pos 0;
      nic = nic;
      fifo = w ∷ ws;
      hdr = hdr;
      mem = mem;
      hwts = hwts;
    } in
    ap (λ z. if not z then early else late (take_words buf_size (w ∷ ws) (start_rx hdr mem))) v
    ∙ ap late e

pub sent :
    (h p : List ℕ) (size a b c : ℕ)
    → header_size h ≡ 14
    → tx_words h p size false ++ oob_words a b c
      ≡ tx_status ∷ (data_words 7 h ++ (payload_words (padded 14 size) p ++ oob_words a b c))
unfolding tx_words
sent h p size a b c e =
    let n = padded 14 size in
    ap
      (λ k.
        tx_status
        ∷ ((data_words (k / 2) h ++ (payload_words (padded k size) p ++ [])) ++ oob_words a b c))
      e
    ∙ ap (λ t. tx_status ∷ t)
        (append_assoc (data_words 7 h) (payload_words n p ++ []) (oob_words a b c)
          ∙ ap (λ t. data_words 7 h ++ t) (append_assoc (payload_words n p) [] (oob_words a b c)))

finished :
    (buf_size sec ppsg : ℕ) (hwts : HwTimestamp) (nic : Minic) (h p hdr mem : List ℕ) (n a b c : ℕ)
    → AllBytes p
    → n < length p
    → n < length mem
    → n ≤ buf_size
    → let r = finish_rx buf_size sec ppsg hwts nic [] (taken buf_size h p hdr mem n a b c) in
      (r.result ≡ pos n)
      × (r.hdr ≡ h)
      × (take n r.mem ≡ take n p)
      × (r.hwts.valid ≡ (bit_and a (2 ^ 11) == 0))
unfolding finish_rx rx_timestamp
finished buf_size sec ppsg hwts nic h p hdr mem n a b c bp lp lm l =
    let k = (n + 1) / 2 in
    (
      ap pos (omega arith),
      refl,
      ap (take n) (put_words_front k p mem bp (omega arith) (omega arith))
          ∙ take_front n (2 * k) p (drop (2 * k) mem) (omega arith) (omega arith),
      refl,
    )

-- What minic_rx_frame makes of a frame for which the buffer has room.
abbrev pub Gives : (n a : ℕ) → (h p : List ℕ) → Received → Type 0
Gives n a h p r =
    (r.result ≡ pos n)
    × (r.hdr ≡ h)
    × (take n r.mem ≡ take n p)
    × (r.fifo ≡ [])
    × (r.hwts.valid ≡ (bit_and a (2 ^ 11) == 0))

pub received_frame :
    (buf_size sec ppsg : ℕ) (hwts : HwTimestamp) (nic : Minic) (h p hdr mem : List ℕ) (n a b c : ℕ)
    → nic.ver_supported ≡ true
    → AllBytes h
    → length h ≡ 14
    → length hdr ≡ 14
    → AllBytes p
    → n < length p
    → n < length mem
    → n ≤ buf_size
    → buf_size < 2 ^ 31
    → Gives n a h p (minic_rx_frame buf_size sec ppsg hwts nic (frame h p n a b c) hdr mem)
unfolding finish_rx
received_frame buf_size sec ppsg hwts nic h p hdr mem n a b c v ah eh ehdr bp lp lm l small =
    let s = taken buf_size h p hdr mem n a b c in
    let behind = data_words 7 h ++ (payload_words n p ++ oob_words a b c) in
    let whole =
      received buf_size sec ppsg hwts nic tx_status behind hdr mem s v
        (frame-taken buf_size h p hdr mem n a b c ah eh ehdr l small) in
    let (result, header, stored, valid) =
      finished buf_size sec ppsg hwts nic h p hdr mem n a b c bp lp lm l in
    (
      ap (λ r. r.result) whole ∙ result,
      ap (λ r. r.hdr) whole ∙ header,
      ap (λ r. take n r.mem) whole ∙ stored,
      ap (λ r. r.fifo) whole ∙ refl,
      ap (λ r. r.hwts.valid) whole ∙ valid,
    )

-- An untagged frame, with its payload padded to 46 bytes, comes out of the FIFO as minic_tx_frame
-- writes it, with the receiver's three words behind: minic_rx_frame, with room for it, gives its
-- length, its header and its payload, empties the FIFO, and has the timestamp valid as the receiver
-- says, whatever was in the buffers before.
pub minic_rx_frame-tx_words :
    (buf_size sec counter_ppsg : ℕ) (hwts : HwTimestamp) (nic : Minic) (h p hdr mem : List ℕ)
    (size a b c : ℕ)
    → nic.ver_supported ≡ true
    → header_size h ≡ 14
    → AllBytes h
    → length h ≡ 14
    → length hdr ≡ 14
    → AllBytes p
    → padded 14 size < length p
    → padded 14 size < length mem
    → padded 14 size ≤ buf_size
    → buf_size < 2 ^ 31
    → let n = padded 14 size in
      let r =
        minic_rx_frame buf_size sec counter_ppsg hwts nic
          (tx_words h p size false ++ oob_words a b c)
          hdr
          mem in
      (r.result ≡ pos n)
      × (r.hdr ≡ h)
      × (take n r.mem ≡ take n p)
      × (r.fifo ≡ [])
      × (r.hwts.valid ≡ (bit_and a (2 ^ 11) == 0))
minic_rx_frame-tx_words buf_size sec ppsg hwts nic h p hdr mem size a b c v plain ah eh ehdr bp lp
      lm l small =
    subst
      (λ ws. Gives (padded 14 size) a h p (minic_rx_frame buf_size sec ppsg hwts nic ws hdr mem))
      (sym (sent h p size a b c plain))
      (received_frame buf_size sec ppsg hwts nic h p hdr mem (padded 14 size) a b c v ah eh ehdr bp
        lp lm l small)
