-- ===== src/Minic/Overrun.antt =====
-- What minic_rx_frame of dev/minic.c does with a frame that is longer than the buffer.
use wrpc_sw.Prelude.{
  ℕ, suc, ◌+◌, ◌*◌, ◌^◌, ◌≤◌, ◌<◌, ◌≡◌, refl, ap, ◌∙◌, true, false, List, [], ◌∷◌, ◌++◌, take, drop,
  length, arith, AllBytes,
}
use wrpc_sw.Prelude.Int.{pos}
use wrpc_sw.Minic.{
  FifoWord, is_status, HwTimestamp, Minic, Rx, start_rx, take_word, take_words, data_words,
  tx_status, finish_rx, minic_rx_frame, rx_timestamp,
}
use wrpc_sw.Minic.Frames.{
  put_words, put_words_front, take_words_more, in_header, header_loop, payload_loop,
}
use wrpc_sw.Minic.Frames.Whole.{take_front, take_all, drop_all, with_payload, skipped, received}

-- No word is a status word.
abbrev pub NoStatus : List FifoWord → Type 0
NoStatus [] = Unit
NoStatus (w ∷ ws) = (is_status w.type ≡ false) × NoStatus ws

skip_word :
    (buf_size : ℕ) (w : FifoWord) (s : Rx)
    → is_status w.type ≡ false
    → 14 ≤ s.hdr_size
    → buf_size < s.payload_size
    → s.payload_size + 2 < 2 ^ 32
    → take_word buf_size w s ≡ (false, record s { payload_size = s.payload_size + 2 })
unfolding take_word
skip_word buf_size w s e h l b = ground arith

skip_words :
    (buf_size n : ℕ) (ws : List FifoWord) (mem : List ℕ) (s : Rx)
    → NoStatus ws
    → buf_size < n
    → n + 2 * length ws < 2 ^ 32
    → take_words buf_size ws (with_payload s n mem) ≡ ([], with_payload s (n + 2 * length ws) mem)
unfolding take_words
skip_words buf_size n [] mem s c l b = let e : n + 0 ≡ n = omega arith in rw e refl
skip_words buf_size n (w ∷ ws) mem s c l b =
    let next = with_payload s (n + 2) mem in
    let more : n + 2 + 2 * length ws ≡ n + 2 * suc (length ws) = omega arith in
    take_words_more buf_size w ws (with_payload s n mem) next
      (skip_word buf_size w (with_payload s n mem) c.0 (omega arith) l (omega arith))
    ∙ skip_words buf_size (n + 2) ws mem s c.1 (omega arith) (omega arith)
    ∙ rw more refl

-- A frame with more payload than a buffer of 2 * m bytes, given by m + 1 words and whatever follows
-- that is no status word: the two bytes behind the buffer are overwritten with the payload's, the
-- result is the buffer's size, and the timestamp is lost, since the words that hold it are skipped.
pub minic_rx_frame-overrun :
    (m sec counter_ppsg : ℕ) (hwts : HwTimestamp) (nic : Minic) (h p hdr mem : List ℕ)
    (rest : List FifoWord)
    → nic.ver_supported ≡ true
    → AllBytes h
    → length h ≡ 14
    → length hdr ≡ 14
    → AllBytes p
    → 2 * suc m ≤ length p
    → 2 * suc m ≤ length mem
    → 2 * suc m + 2 * length rest < 2 ^ 31
    → NoStatus rest
    → let r =
        minic_rx_frame
          (2 * m)
          sec
          counter_ppsg
          hwts
          nic
          (tx_status ∷ (data_words 7 h ++ (data_words (suc m) p ++ rest)))
          hdr
          mem in
      (take (2 * suc m) r.mem ≡ take (2 * suc m) p)
      × (r.result ≡ pos (2 * m))
      × (r.hwts.valid ≡ false)
unfolding finish_rx rx_timestamp
minic_rx_frame-overrun m sec ppsg hwts nic h p hdr mem rest v ah eh ehdr bp lp lm b c =
    let start = start_rx hdr mem in
    let n = 2 * suc m in
    let stored = put_words 0 (suc m) p mem in
    let behind = data_words (suc m) p ++ rest in
    let header : put_words 0 7 h hdr ≡ h =
      put_words_front 7 h hdr ah (omega (arith, eh)) (omega (arith, ehdr))
      ∙ ap (λ t. take 14 h ++ t) (drop_all 14 hdr ehdr)
      ∙ take_all 14 h eh in
    let loop =
      take_words_more (2 * m) tx_status (data_words 7 h ++ behind) start start
        (skipped (2 * m) hdr mem)
      ∙ header_loop (2 * m) 7 0 h hdr behind start (omega arith)
      ∙ ap (λ t. take_words (2 * m) behind (in_header start 7 t)) header
      ∙ payload_loop (2 * m) (suc m) 0 p mem rest (start_rx h mem) (omega arith) (omega arith)
      ∙ ap (λ j. take_words (2 * m) rest (with_payload (start_rx h mem) j stored))
          (let e : 2 * (0 + suc m) ≡ n = omega arith in e)
      ∙ skip_words (2 * m) n rest stored (start_rx h mem) c (omega arith) (omega arith) in
    let whole =
      received (2 * m) sec ppsg hwts nic tx_status (data_words 7 h ++ behind) hdr mem
        (with_payload (start_rx h mem) (n + 2 * length rest) stored) v loop in
    (
      ap (λ r. take n r.mem) whole
          ∙ ap (take n) (put_words_front (suc m) p mem bp lp lm)
          ∙ take_front n n p (drop n mem) (omega arith) lp,
      ap (λ r. r.result) whole ∙ ap pos (omega arith),
      ap (λ r. r.hwts.valid) whole ∙ refl,
    )
