-- ===== src/Ip/Udp/Verifies.antt =====
-- What fill_udp of lib/udp.c makes carries checksums that verify.
use wrpc_sw.Prelude.{
  ℕ, suc, ◌+◌, ◌-◌, ◌/◌, ◌%◌, ◌^◌, ◌≤◌, ◌<◌, ◌≡◌, refl, ap, ap₂, ◌∙◌, some, List, ◌++◌, take, drop,
  set, length, ◌==◌, if◌then◌else◌, arith,
}
use wrpc_sw.Ip.Bytes.{put, byte, be16, AllBytes}
use wrpc_sw.Ip.Checksum.{sum_shorts, fold_sum, ipv4_checksum}
use wrpc_sw.Ip.Udp.{udp_headers, udp_checksum, ip_header, fill_addressed, fill_udp}
use wrpc_sw.Ip.Udp.Layout.{
  Tuple, bytes, addr_of, pseudo_header, ip_header-verifies, sum_shorts_pad, sum_shorts-le,
  sent_verifies, sent-lt, set_behind, take_front,
}

module _ (len : ℕ) (h : Tuple 28) (s d : Tuple 4) (p q : Tuple 2) where
  -- The headers for the checksum, and the finished ones.
  abbrev headers : List ℕ
  headers = udp_headers len (addr_of s d p q) (bytes 28 h)

  abbrev finished : ℕ → List ℕ
  finished ck = ip_header len (addr_of s d p q) (put 26 (be16 ck) headers)

  fill_frame :
      (payload tail : List ℕ)
      → len ≡ 28 + length payload
      → (rest : List ℕ) × (fill_addressed len (addr_of s d p q) (bytes 28 h ++ (payload ++ tail))
          ≡ finished (udp_checksum len (headers ++ (payload ++ tail))) ++ (payload ++ rest))
  unfolding ipv4_checksum
  fill_frame payload tail e =
      let whole = headers ++ (payload ++ tail) in
      let old = byte len whole in
      let rest = set (set tail 0 0) 0 old in
      let back : set (set whole len 0) len old ≡ headers ++ (payload ++ rest) =
        ap (λ b. set b len old) (set_behind headers payload tail len 0 e)
        ∙ set_behind headers payload (set tail 0 0) len old e in
      (
        rest,
        ap (λ b. ip_header len (addr_of s d p q) (put 26 (be16 (udp_checksum len whole)) b)) back,
      )

  -- The block that the checksum is of, with 0 for the checksum.
  abbrev block : List ℕ → List ℕ
  block payload = drop 8 headers ++ payload

  module _ (payload : List ℕ) (e : len ≡ 28 + length payload) (small : len < 2 ^ 16)
      (addressed : AllBytes (bytes 4 s)
        × AllBytes (bytes 4 d)
        × AllBytes (bytes 2 p)
        × AllBytes (bytes 2 q))
      (a : AllBytes payload) where
    abbrev half : ℕ
    half = (length payload + 1) / 2

    abbrev shorts : ℕ
    shorts = suc (suc (suc (suc (suc (suc (suc (suc (suc (suc half)))))))))

    shorts_is : (len + 1 - 8) / 2 ≡ shorts
    shorts_is = omega (arith, e)

    abbrev total : ℕ
    total = sum_shorts shorts (block payload)

    total_small : total + 2 ^ 17 ≤ 2 ^ 32
    total_small = omega (arith, sum_shorts-le payload half a, addressed, small, e)

    total_positive : 0 < total
    total_positive = omega arith

    checksum_is :
        (tail : List ℕ)
        → udp_checksum len (headers ++ (payload ++ tail))
          ≡ (if fold_sum total == 0 then 0xffff else fold_sum total)
    unfolding ipv4_checksum
    checksum_is tail =
        ap (λ c. if c == 0 then 0xffff else c)
          (ap₂ (λ k b. fold_sum (sum_shorts k (drop 8 b) % 2 ^ 32)) shorts_is
              (set_behind headers payload tail len 0 e)
            ∙ ap fold_sum (omega (arith, sum_shorts_pad payload tail half refl, total_small)))

    total_with :
        (c : ℕ)
        → c < 2 ^ 16
        → sum_shorts shorts (pseudo_header len s d ++ drop 20 (finished c ++ payload)) % 2 ^ 32
          ≡ total + c
    total_with c lt = omega (arith, lt, total_small)

    udp_verifies :
        (tail : List ℕ)
        → ipv4_checksum
            (pseudo_header len s d
              ++ drop 20 (
                  take len
                    (fill_addressed len (addr_of s d p q) (bytes 28 h ++ (payload ++ tail)))))
            ((len + 1 - 8) / 2)
          ≡ 0
    unfolding ipv4_checksum
    udp_verifies tail =
        let ck = udp_checksum len (headers ++ (payload ++ tail)) in
        let (rest, frame) = fill_frame payload tail e in
        let cut = ap (take len) frame ∙ take_front (finished ck) payload rest len e in
        let sent = if fold_sum total == 0 then 0xffff else fold_sum total in
        ap₂ (λ k b. ipv4_checksum (pseudo_header len s d ++ drop 20 b) k) shorts_is cut
        ∙ ap
            (λ c. fold_sum (
              sum_shorts shorts (pseudo_header len s d ++ drop 20 (finished c ++ payload))
              % 2 ^ 32))
            (checksum_is tail)
        ∙ ap fold_sum (total_with sent (sent-lt total))
        ∙ sent_verifies total total_positive (omega (arith, total_small))

-- A UDP packet that fill_udp has made verifies, both in the IP header and over the pseudo header, the
-- UDP header and the payload, whatever was in the headers before and stands behind the payload.
pub fill_udp-verifies :
    (len : ℕ) (h : Tuple 28) (s d : Tuple 4) (p q : Tuple 2) (payload tail : List ℕ)
    → len ≡ 28 + length payload
    → len < 2 ^ 16
    → AllBytes (bytes 4 s) × AllBytes (bytes 4 d) × AllBytes (bytes 2 p) × AllBytes (bytes 2 q)
    → AllBytes payload
    → let packet = fill_udp len (some (addr_of s d p q)) (bytes 28 h ++ (payload ++ tail)) in
      (ipv4_checksum packet 10 ≡ 0)
      × (ipv4_checksum (pseudo_header len s d ++ drop 20 (take len packet)) ((len + 1 - 8) / 2) ≡ 0)
unfolding fill_udp
fill_udp-verifies len h s d p q payload tail e small (sb, db, pb, qb) a = (
  ip_header-verifies len s d p q
      (let filled = udp_headers len (addr_of s d p q) (bytes 28 h ++ (payload ++ tail)) in
        put 26 (be16 (udp_checksum len filled)) (set (set filled len 0) len (byte len filled)))
      sb db,
  udp_verifies len h s d p q payload e small (sb, db, pb, qb) a tail,
)
