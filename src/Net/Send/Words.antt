-- ===== src/Net/Send/Words.antt =====
-- The words that ptpd_netif_sendto of lib/net.c writes, with and without a tag.
use mathlib.Core.List.{append_assoc}
use wrpc_sw.Prelude.{
  ℕ, suc, ◌+◌, ◌*◌, ◌/◌, ◌%◌, ◌^◌, ◌<◌, ◌≡◌, ◌≢◌, refl, ap, ◌∙◌, Bool, true, false, List, [], ◌∷◌,
  ◌++◌, ◌&&◌, take, drop, get_or, length, ◌==◌, ==_iff, if◌then◌else◌, arith, AllBytes,
}
use wrpc_sw.Ip.Bytes.{be16}
use wrpc_sw.Ip.Udp.Layout.{Tuple, bytes}
use wrpc_sw.Minic.{data_words, payload_words, tx_status, tx_words, padded}
use wrpc_sw.Minic.Frames.Whole.{oob_words, frame, sent}
use wrpc_sw.Prelude.Ranges.{holds_up_to, holds_up_to-lt}
use wrpc_sw.Net.Send.{vlan_tag, eth_header}

abbrev tag_keeps : ℕ → ℕ → Bool
tag_keeps prio vlan = vlan_tag vlan prio == vlan + prio * 2 ^ 13

abbrev tags_keep : ℕ → Bool
tags_keep prio = holds_up_to (tag_keeps prio) 4096

tag_table : holds_up_to tags_keep 8 ≡ true
unfolding holds_up_to
tag_table = refl

pub tag_lem : (vlan prio : ℕ) → vlan < 4096 → prio < 8 → vlan_tag vlan prio ≡ vlan + prio * 2 ^ 13
tag_lem vlan prio h k =
    (==_iff (vlan_tag vlan prio) (vlan + prio * 2 ^ 13)).0
      (holds_up_to-lt (tag_keeps prio) 4096 vlan h (holds_up_to-lt tags_keep 8 prio k tag_table))

-- The four bytes of a tag in front of the payload.
pub tag_front :
    (n a b c d : ℕ) (p mem : List ℕ)
    → take (suc (suc (suc (suc n)))) mem ≡ a ∷ b ∷ c ∷ d ∷ take n p
    → (get_or mem 0 0 ≡ a)
      × (get_or mem 1 0 ≡ b)
      × (get_or mem 2 0 ≡ c)
      × (get_or mem 3 0 ≡ d)
      × (take n (drop 4 mem) ≡ take n p)
tag_front n a b c d p [] e = absurd (cc)
tag_front n a b c d p (u ∷ []) e = absurd (cc)
tag_front n a b c d p (u ∷ v ∷ []) e = absurd (cc)
tag_front n a b c d p (u ∷ v ∷ w ∷ []) e = absurd (cc)
tag_front n a b c d p (u ∷ v ∷ w ∷ x ∷ mem) e = (cc, cc, cc, cc, cc)

payload_behind_tag :
    (n a b c d : ℕ) (p : List ℕ)
    → data_words 2 (a ∷ b ∷ c ∷ d ∷ []) ++ payload_words n p
      ≡ payload_words (suc (suc (suc (suc n)))) (a ∷ b ∷ c ∷ d ∷ p)
unfolding data_words payload_words
payload_behind_tag n a b c d p =
    let k = n / 2 in
    let half : suc (suc (suc (suc n))) / 2 ≡ suc (suc k) = omega arith in
    let parity : suc (suc (suc (suc n))) % 2 ≡ n % 2 = omega arith in
    let place : 2 * suc (suc k) ≡ suc (suc (suc (suc (2 * k)))) = omega arith in
    let next : suc (suc (suc (suc (2 * k)))) + 1 ≡ suc (suc (suc (suc (2 * k + 1)))) =
      omega arith in
    rw (half, parity, place, next) refl

plain :
    (ethertype : ℕ)
    → ethertype < 2 ^ 16
    → ethertype ≢ 0x8100
    → (ethertype / 2 ^ 8 % 2 ^ 8 == 0x81) && (ethertype % 2 ^ 8 == 0) ≡ false
plain ethertype e ne = ground arith

module _ (src dst : Tuple 6) (ethertype : ℕ) (e : ethertype < 2 ^ 16)
    (bytes_src : AllBytes (bytes 6 src)) (bytes_dst : AllBytes (bytes 6 dst)) where
  -- The first 14 bytes with this type.
  unfoldable pub front : ℕ → List ℕ
  front t = bytes 6 dst ++ (bytes 6 src ++ be16 t)

  pub front-AllBytes : (t : ℕ) → AllBytes (front t)
  unfolding front
  front-AllBytes t = omega (arith, bytes_src, bytes_dst)

  pub length-front : (t : ℕ) → length (front t) ≡ 14
  unfolding front
  length-front t = refl

  -- The words of an untagged frame.
  pub untagged :
      (vlan prio size a b c : ℕ) (p : List ℕ)
      → vlan == 0 ≡ true
      → ethertype ≢ 0x8100
      → tx_words (eth_header vlan prio ethertype (bytes 6 dst) (bytes 6 src)) p size false
          ++ oob_words a b c
        ≡ frame (front ethertype) p (padded 14 size) a b c
  unfolding front eth_header
  untagged vlan prio size a b c p v ne =
      let t = be16 (vlan_tag vlan prio) ++ be16 ethertype in
      ap
        (λ z.
          tx_words
            (bytes 6 dst ++ (bytes 6 src ++ (if z then be16 ethertype else (be16 0x8100 ++ t)))) p
            size false
          ++ oob_words a b c)
        v
      ∙ sent (front ethertype) p size a b c (ap (λ z. if z then 18 else 14) (plain ethertype e ne))

  -- The words of a tagged frame: the tag and the type stand in front of the payload.
  pub tagged :
      (vlan prio size a b c : ℕ) (p : List ℕ)
      → vlan == 0 ≡ false
      → tx_words (eth_header vlan prio ethertype (bytes 6 dst) (bytes 6 src)) p size false
          ++ oob_words a b c
        ≡ frame
            (front 0x8100)
            (be16 (vlan_tag vlan prio) ++ (be16 ethertype ++ p))
            (suc (suc (suc (suc (padded 18 size)))))
            a
            b
            c
  unfolding front eth_header tx_words data_words
  tagged vlan prio size a b c p v =
      let n = padded 18 size in
      let t = be16 (vlan_tag vlan prio) ++ be16 ethertype in
      let h = bytes 6 dst ++ (bytes 6 src ++ (be16 0x8100 ++ t)) in
      let words = data_words 9 h in
      ap
        (λ z.
          tx_words
            (bytes 6 dst ++ (bytes 6 src ++ (if z then be16 ethertype else (be16 0x8100 ++ t)))) p
            size false
          ++ oob_words a b c)
        v
      ∙ ap (λ l. tx_status ∷ l)
          (append_assoc words (payload_words n p ++ []) (oob_words a b c)
            ∙ ap (λ l. words ++ l) (append_assoc (payload_words n p) [] (oob_words a b c))
            ∙ ap (λ l. data_words 7 (front 0x8100) ++ (l ++ oob_words a b c))
                (payload_behind_tag n (vlan_tag vlan prio / 2 ^ 8 % 2 ^ 8)
                  (vlan_tag vlan prio % 2 ^ 8) (ethertype / 2 ^ 8 % 2 ^ 8) (ethertype % 2 ^ 8) p))
