-- ===== src/Net/Send/Link.antt =====
-- A frame of ptpd_netif_sendto of lib/net.c on its way to a receiver. The link with the hardware at its
-- two ends is a parameter: it takes the words written to one FIFO to those read from the other.
use mathlib.Core.Path.{subst}
use mathlib.Core.List.{append_assoc, append-nil}
use wrpc_sw.Prelude.{
  ℕ, zero, suc, ◌+◌, ◌/◌, ◌%◌, ◌^◌, ◌≤◌, ◌<◌, ◌≡◌, ◌≢◌, refl, sym, ap, ◌∙◌, true, false, List, [],
  ◌∷◌, ◌++◌, drop, length, ◌==◌, if◌then◌else◌, arith, AllBytes, Bool-cases, inl, inr,
}
use wrpc_sw.Ip.Udp.Layout.{Tuple, bytes}
use wrpc_sw.Minic.{
  FifoWord, HwTimestamp, Minic, is_oob, data_words, header_size, payload_words, tx_oob, tx_status,
  tx_words, padded, minic_rx_frame,
}
use wrpc_sw.Minic.Frames.Whole.{oob_words}
use wrpc_sw.Net.Demux.{Socket, remove_tag}
use wrpc_sw.Net.Send.{eth_header, ptpd_netif_sendto}
use wrpc_sw.Net.Send.Wire.{Arrives, frame_of, eth_frame-Arrives}

-- No out-of-band word.
abbrev pub NoOob : List FifoWord → Type 0
NoOob [] = Unit
NoOob (w ∷ ws) = (is_oob w.type ≡ false) × NoOob ws

NoOob-append : (ws vs : List FifoWord) → NoOob ws → NoOob vs → NoOob (ws ++ vs)
NoOob-append [] vs a b = b
NoOob-append (w ∷ ws) vs a b = (a.0, NoOob-append ws vs a.1 b)

data_words-NoOob : (n : ℕ) (mem : List ℕ) → NoOob (data_words n mem)
unfolding data_words
data_words-NoOob zero mem = tt
data_words-NoOob (suc n) mem = (refl, data_words-NoOob n (drop 2 mem))

payload_words-NoOob : (size : ℕ) (mem : List ℕ) → NoOob (payload_words size mem)
unfolding payload_words
payload_words-NoOob size mem = elim (Bool-cases (size % 2 == 0)) [
  | inl e ↦ rw e (NoOob-append (data_words (size / 2) mem) [] (data_words-NoOob (size / 2) mem) tt)
  | inr e ↦
      rw e (NoOob-append (data_words (size / 2) mem) _ (data_words-NoOob (size / 2) mem) (refl, tt))
]

tx_words-NoOob : (hdr p : List ℕ) (size : ℕ) → NoOob (tx_words hdr p size false)
unfolding tx_words
tx_words-NoOob hdr p size =
    let n = padded (header_size hdr) size in
    (
      refl,
      NoOob-append (data_words (header_size hdr / 2) hdr) (payload_words n p ++ [])
          (data_words-NoOob (header_size hdr / 2) hdr)
          (NoOob-append (payload_words n p) [] (payload_words-NoOob n p) tt),
    )

tx_words-stamped :
    (hdr p : List ℕ) (size : ℕ) → tx_words hdr p size true ≡ tx_words hdr p size false ++ tx_oob
unfolding tx_words
tx_words-stamped hdr p size =
    let ws = data_words (header_size hdr / 2) hdr in
    let vs = payload_words (padded (header_size hdr) size) p in
    ap (λ l. tx_status ∷ l)
      (ap (λ l. ws ++ (l ++ tx_oob)) (sym (append-nil vs))
        ∙ sym (append_assoc ws (vs ++ []) tx_oob))

written :
    (vlan prio size : ℕ) (nic : Minic) (sock : Socket) (to from p : List ℕ)
    → nic.ver_supported ≡ true
    → (ptpd_netif_sendto vlan prio sock to from nic p size).1.0
      ≡ tx_words (eth_header vlan prio sock.ethertype to from) p size true
unfolding ptpd_netif_sendto
written vlan prio size nic sock to from p v = ground (arith, v)

-- A frame that is sent with a VLAN, or with none, arrives at a receiver with room for it, over a link
-- that takes the two out-of-band words, which ask for a timestamp, off the end of a frame and puts
-- the receiver's timestamp there: without the tag, the VLAN is the sender's, the ethertype is the
-- socket's, and the payload is what was sent, padded to the shortest frame of 60 bytes, whatever was
-- in the receiver's buffers.
pub ptpd_netif_sendto-Arrives :
    (vlan prio size a b c buf_size sec counter_ppsg : ℕ) (hwts : HwTimestamp) (stamp : List ℕ)
    (nic nic' : Minic) (sock : Socket) (src dst : Tuple 6) (p hdr mem : List ℕ)
    (link : List FifoWord → List FifoWord)
    → ((ws : List FifoWord) → NoOob ws → link (ws ++ tx_oob) ≡ ws ++ oob_words a b c)
    → nic.ver_supported ≡ true
    → nic'.ver_supported ≡ true
    → vlan < 4096
    → prio < 8
    → sock.ethertype < 2 ^ 16
    → sock.ethertype ≢ 0x8100
    → AllBytes (bytes 6 src)
    → AllBytes (bytes 6 dst)
    → AllBytes p
    → length hdr ≡ 14
    → let n = padded (if vlan == 0 then 14 else 18) size in
      n < length p
      → n + 4 < length mem
      → n + 4 ≤ buf_size
      → buf_size < 2 ^ 31
      → Arrives vlan sock.ethertype n p (
          remove_tag (
            frame_of stamp (
              minic_rx_frame buf_size sec counter_ppsg hwts nic'
                (link (ptpd_netif_sendto vlan prio sock (bytes 6 dst) (bytes 6 src) nic p size).1.0)
                hdr
                mem)))
ptpd_netif_sendto-Arrives vlan prio size a b c buf_size sec ppsg hwts stamp nic nic' sock src dst p
      hdr mem link carries v v' lv lp le ne bs bd bp eh ln lm lb small =
    let h = eth_header vlan prio sock.ethertype (bytes 6 dst) (bytes 6 src) in
    let n = padded (if vlan == 0 then 14 else 18) size in
    let came = λ (ws : List FifoWord).
      Arrives vlan sock.ethertype n p
        (remove_tag (frame_of stamp (minic_rx_frame buf_size sec ppsg hwts nic' ws hdr mem))) in
    let words =
      ap link (
        written vlan prio size nic sock (bytes 6 dst) (bytes 6 src) p v ∙ tx_words-stamped h p size)
      ∙ carries (tx_words h p size false) (tx_words-NoOob h p size) in
    subst came (sym words) (
      eth_frame-Arrives vlan prio size a b c buf_size sec ppsg hwts stamp nic' sock.ethertype src
        dst p hdr mem v' lv lp le ne bs bd bp eh ln lm lb small)
