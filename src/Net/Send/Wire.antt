-- ===== src/Net/Send/Wire.antt =====
-- What ptpd_netif_sendto of lib/net.c sends through dev/minic.c, netif_poll receives.
use mathlib.Core.Path.{subst}
use wrpc_sw.Prelude.{
  ℕ, suc, ◌+◌, ◌*◌, ◌/◌, ◌%◌, ◌^◌, ◌≤◌, ◌<◌, ◌≡◌, ◌≢◌, refl, sym, ap, ◌∙◌, Bool, true, false, List,
  ◌++◌, take, get_or, length, ◌==◌, ==_iff, if◌then◌else◌, arith, AllBytes, Bool-cases, inl, inr,
}
use wrpc_sw.Prelude.Int.{pos_part}
use wrpc_sw.Ip.Bytes.{be16}
use wrpc_sw.Ip.Udp.Layout.{Tuple, bytes}
use wrpc_sw.Minic.{FifoWord, HwTimestamp, Minic, Received, tx_words, padded, minic_rx_frame}
use wrpc_sw.Minic.Frames.Whole.{oob_words, frame, Gives, received_frame}
use wrpc_sw.Net.Demux.{Frame, remove_tag}
use wrpc_sw.Net.Send.{vlan_tag, eth_header}
use wrpc_sw.Net.Send.Words.{
  tag_lem, tag_front, front, front-AllBytes, length-front, untagged, tagged,
}

-- What netif_poll has from minic_rx_frame; the timestamp's bytes are an argument.
abbrev pub frame_of : List ℕ → Received → Frame
frame_of hwts r = record {
  addresses = take 12 r.hdr;
  ethtype = get_or r.hdr 12 0 * 2 ^ 8 + get_or r.hdr 13 0;
  buffer = r.mem;
  recvd = pos_part r.result;
  hwts = hwts;
}

-- The payload p, of which n bytes count, has come with this VLAN and this ethertype.
abbrev pub Arrives : (vlan ethertype n : ℕ) → List ℕ → ℕ × Frame → Type 0
Arrives vlan ethertype n p (tag, g) =
    (tag % 2 ^ 12 ≡ vlan) × (g.ethtype ≡ ethertype) × (g.recvd ≡ n) × (take n g.buffer ≡ take n p)

module _ (src dst : Tuple 6) (ethertype : ℕ) (e : ethertype < 2 ^ 16)
    (bytes_src : AllBytes (bytes 6 src)) (bytes_dst : AllBytes (bytes 6 dst)) where
  Arrives-untagged :
      (stamp : List ℕ) (n a : ℕ) (p : List ℕ) (r : Received)
      → ethertype ≢ 0x8100
      → Gives n a (front src dst ethertype e bytes_src bytes_dst ethertype) p r
      → Arrives 0 ethertype n p (remove_tag (frame_of stamp r))
  unfolding front
  Arrives-untagged stamp n a p r ne (result, header, stored, _, _) =
      let type : get_or r.hdr 12 0 * 2 ^ 8 + get_or r.hdr 13 0 ≡ ethertype =
        ap (λ h. get_or h 12 0 * 2 ^ 8 + get_or h 13 0) header ∙ omega (arith, e) in
      let other : (get_or r.hdr 12 0 * 2 ^ 8 + get_or r.hdr 13 0 == 0x8100) ≡ false =
        ground (arith, type, ne) in
      rw other (refl, type, ap pos_part result, stored)

  Arrives-tagged :
      (stamp : List ℕ) (vlan prio n a : ℕ) (p : List ℕ) (r : Received)
      → vlan < 4096
      → prio < 8
      → Gives
          (suc (suc (suc (suc n))))
          a
          (front src dst ethertype e bytes_src bytes_dst 0x8100)
          (be16 (vlan_tag vlan prio) ++ (be16 ethertype ++ p))
          r
      → Arrives vlan ethertype n p (remove_tag (frame_of stamp r))
  unfolding front
  Arrives-tagged stamp vlan prio n a p r lv lp (result, header, stored, _, _) =
      let tag = vlan_tag vlan prio in
      let type : get_or r.hdr 12 0 * 2 ^ 8 + get_or r.hdr 13 0 ≡ 0x8100 =
        ap (λ h. get_or h 12 0 * 2 ^ 8 + get_or h 13 0) header in
      let (b0, b1, b2, b3, rest) =
        tag_front n (tag / 2 ^ 8 % 2 ^ 8) (tag % 2 ^ 8) (ethertype / 2 ^ 8 % 2 ^ 8)
          (ethertype % 2 ^ 8) p r.mem stored in
      rw type (
        omega (arith, b0, b1, tag_lem vlan prio lv lp),
        omega (arith, b2, b3, e),
        omega (arith, ap pos_part result),
        rest,
      )

  module _ (stamp : List ℕ) (buf_size sec ppsg : ℕ) (hwts : HwTimestamp) (nic : Minic) (n a b c : ℕ)
      (p hdr mem : List ℕ) (supported : nic.ver_supported ≡ true) (hdr_room : length hdr ≡ 14)
      (bytes_p : AllBytes p) (enough : n < length p) (mem_room : n + 4 < length mem)
      (fits : n + 4 ≤ buf_size) (small : buf_size < 2 ^ 31) where
    abbrev read : List FifoWord → Received
    read ws = minic_rx_frame buf_size sec ppsg hwts nic ws hdr mem

    abbrev rx : List FifoWord → ℕ × Frame
    rx ws = remove_tag (frame_of stamp (read ws))

    untagged_frame :
        ethertype ≢ 0x8100
        → Arrives 0 ethertype n p
            (rx (frame (front src dst ethertype e bytes_src bytes_dst ethertype) p n a b c))
    untagged_frame ne =
        Arrives-untagged stamp n a p
          (read (frame (front src dst ethertype e bytes_src bytes_dst ethertype) p n a b c)) ne
          (received_frame buf_size sec ppsg hwts nic
            (front src dst ethertype e bytes_src bytes_dst ethertype) p hdr mem n a b c supported
            (front-AllBytes src dst ethertype e bytes_src bytes_dst ethertype)
            (length-front src dst ethertype e bytes_src bytes_dst ethertype) hdr_room bytes_p enough
            (omega (arith, mem_room)) (omega (arith, fits)) small)

    tagged_frame :
        (vlan prio : ℕ)
        → vlan < 4096
        → prio < 8
        → Arrives vlan ethertype n p (
            rx (
              frame
                (front src dst ethertype e bytes_src bytes_dst 0x8100)
                (be16 (vlan_tag vlan prio) ++ (be16 ethertype ++ p))
                (suc (suc (suc (suc n))))
                a
                b
                c))
    tagged_frame vlan prio lv lp =
        let q = be16 (vlan_tag vlan prio) ++ (be16 ethertype ++ p) in
        Arrives-tagged stamp vlan prio n a p
          (read (
            frame (front src dst ethertype e bytes_src bytes_dst 0x8100) q (suc (suc (suc (suc n))))
              a b c))
          lv lp
          (received_frame buf_size sec ppsg hwts nic
            (front src dst ethertype e bytes_src bytes_dst 0x8100) q hdr mem
            (suc (suc (suc (suc n)))) a b c supported
            (front-AllBytes src dst ethertype e bytes_src bytes_dst 0x8100)
            (length-front src dst ethertype e bytes_src bytes_dst 0x8100) hdr_room
            (omega arith, (omega arith, (omega arith, (omega arith, bytes_p))))
            (omega (arith, enough)) (omega (arith, mem_room)) (omega (arith, fits)) small)

-- The words of a frame, with the receiver's timestamp behind them, are taken for that frame.
pub eth_frame-Arrives :
    (vlan prio size a b c buf_size sec counter_ppsg : ℕ) (hwts : HwTimestamp) (stamp : List ℕ)
    (nic' : Minic) (ethertype : ℕ) (src dst : Tuple 6) (p hdr mem : List ℕ)
    → nic'.ver_supported ≡ true
    → vlan < 4096
    → prio < 8
    → ethertype < 2 ^ 16
    → ethertype ≢ 0x8100
    → AllBytes (bytes 6 src)
    → AllBytes (bytes 6 dst)
    → AllBytes p
    → length hdr ≡ 14
    → let n = padded (if vlan == 0 then 14 else 18) size in
      n < length p
      → n + 4 < length mem
      → n + 4 ≤ buf_size
      → buf_size < 2 ^ 31
      → Arrives vlan ethertype n p (
          remove_tag (
            frame_of stamp (
              minic_rx_frame buf_size sec counter_ppsg hwts nic'
                (tx_words (eth_header vlan prio ethertype (bytes 6 dst) (bytes 6 src)) p size false
                  ++ oob_words a b c)
                hdr
                mem)))
eth_frame-Arrives vlan prio size a b c buf_size sec ppsg hwts stamp nic' e src dst p hdr mem v' lv
      lp le ne bs bd bp eh ln lm lb small =
    let sent_words =
      tx_words (eth_header vlan prio e (bytes 6 dst) (bytes 6 src)) p size false
      ++ oob_words a b c in
    let came = λ (n : ℕ) (ws : List FifoWord).
      Arrives vlan e n p
        (remove_tag (frame_of stamp (minic_rx_frame buf_size sec ppsg hwts nic' ws hdr mem))) in
    elim (Bool-cases (vlan == 0)) [
      | inl z ↦
          let n : padded (if vlan == 0 then 14 else 18) size ≡ padded 14 size =
            ap (λ (b : Bool). padded (if b then 14 else 18) size) z in
          subst (λ k. came k sent_words) (sym n)
            (subst (came (padded 14 size))
              (sym (untagged src dst e le bs bd vlan prio size a b c p z ne))
              (subst
                (λ (k : ℕ). Arrives k e (padded 14 size) p (
                  remove_tag (
                    frame_of stamp (
                      minic_rx_frame buf_size sec ppsg hwts nic'
                        (frame (front src dst e le bs bd e) p (padded 14 size) a b c) hdr mem))))
                (sym ((==_iff vlan 0).0 z))
                (untagged_frame src dst e le bs bd stamp buf_size sec ppsg hwts nic'
                  (padded 14 size) a b c p hdr mem v' eh bp (subst (λ k. k < length p) n ln)
                  (subst (λ k. k + 4 < length mem) n lm) (subst (λ k. k + 4 ≤ buf_size) n lb) small
                  ne)))
      | inr z ↦
          let n : padded (if vlan == 0 then 14 else 18) size ≡ padded 18 size =
            ap (λ (b : Bool). padded (if b then 14 else 18) size) z in
          subst (λ k. came k sent_words) (sym n)
            (subst (came (padded 18 size))
              (sym (tagged src dst e le bs bd vlan prio size a b c p z))
              (tagged_frame src dst e le bs bd stamp buf_size sec ppsg hwts nic' (padded 18 size) a
                b c p hdr mem v' eh bp (subst (λ k. k < length p) n ln)
                (subst (λ k. k + 4 < length mem) n lm) (subst (λ k. k + 4 ≤ buf_size) n lb) small
                vlan prio lv lp))
    ]
