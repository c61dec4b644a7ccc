-- ===== src/Ip/Bootp.antt =====
-- prepare_bootp and process_bootp of lib/bootp.c. The BOOTP packet starts at 28 and ends at 328.
pub mod Offer
use wrpc_sw.Prelude.{
  ℕ, suc, ◌+◌, ◌*◌, ◌/◌, ◌%◌, ◌^◌, ◌≡◌, ◌≢◌, refl, sym, ap, ◌∙◌, ◌⊎◌, inl, inr, Bool, true, false,
  not, ◌||◌, ◌&&◌, some, List, [], ◌∷◌, ◌++◌, replicate, bit_xor, ◌==◌, if◌then◌else◌, arith,
  Bool-cases, length,
}
use wrpc_sw.Ip.Bytes.{get, put, byte, be16, same}
use wrpc_sw.Ip.Node.{IpStatus, ip_training, ip_ok_bootp, Node, set_ip}
use wrpc_sw.Ip.Udp.{UdpAddr, fill_udp}
use wrpc_sw.Ip.Udp.Layout.{Tuple, bytes}

abbrev pub bootp_end : ℕ
bootp_end = 328

-- The request, written into the buffer.
unfoldable pub prepare_bootp : Node → List ℕ → ℕ → List ℕ
prepare_bootp n buf retry =
    let op = put 28 (1 ∷ 1 ∷ 6 ∷ 0 ∷ []) buf in
    let id = put 32 n.mac_addr op in
    let xid =
      put 32
        (bit_xor (byte 32 id) (byte 36 id)
          ∷ bit_xor (byte 33 id) (byte 37 id)
          ∷ bit_xor (byte 34 id) (retry / 2 ^ 8 % 2 ^ 8)
          ∷ bit_xor (byte 35 id) (retry % 2 ^ 8)
          ∷ [])
        id in
    let secs = put 38 (0 ∷ 0 ∷ []) (put 36 (be16 retry) xid) in
    let addresses = put 40 (replicate 16 0) secs in
    let own = put 56 n.mac_addr (put 56 (replicate 16 0) addresses) in
    let names = put 136 (replicate 128 0) (put 72 (replicate 64 0) own) in
    let vend = put 264 (replicate 64 0) names in
    fill_udp bootp_end
      (some record {
        saddr = replicate 4 0;
        daddr = replicate 4 0xff;
        sport = be16 68;
        dport = be16 67;
      })
      vend

-- 1 if the packet gives the node its address.
unfoldable pub process_bootp : Node → List ℕ → ℕ → ℕ × Node
process_bootp n buf len =
    if not (len == bootp_end)
    then (0, n)
    else if not (byte 20 buf == 0) || not (byte 21 buf == 67)
    then (0, n)
    else if not (same (get 56 6 buf) n.mac_addr)
    then (0, n)
    else (1, set_ip (get 44 4 buf) (record n { ip_status = ip_ok_bootp }))
