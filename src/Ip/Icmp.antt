-- ===== src/Ip/Icmp.antt =====
-- process_icmp of lib/icmp.c. The ICMP header is at 20, its body at 24. `total` is hisBodyLen + 24: the
-- source's hisBodyLen is negative for a packet whose IP length is below 24, the sum is not.
pub mod Echo
use wrpc_sw.Prelude.{
  ℕ, suc, ◌+◌, ◌-◌, ◌*◌, ◌/◌, ◌%◌, ◌^◌, Bool, not, ◌||◌, List, [], ◌∷◌, ◌++◌, drop, min, ◌==◌,
  if◌then◌else◌,
}
use wrpc_sw.Ip.Bytes.{get, put, byte, be16}
use wrpc_sw.Ip.Checksum.{ipv4_checksum}
use wrpc_sw.Ip.Node.{Node, for_me}

-- The answer, made in place.
abbrev pub echo_reply : Node → List ℕ → ℕ → List ℕ
echo_reply n buf total =
    let his_ip = get 12 4 buf in
    let fields = put 0 (0x45 ∷ 0 ∷ (be16 total ++ (0 ∷ 0 ∷ 0 ∷ 0 ∷ 63 ∷ 1 ∷ 0 ∷ 0 ∷ []))) buf in
    let addressed = put 16 his_ip (put 12 n.my_ip fields) in
    let typed = put 20 (0 ∷ 0 ∷ 0 ∷ 0 ∷ []) addressed in
    let summed = put 22 (be16 (ipv4_checksum (drop 20 typed) ((total + 4 + 1 - 24) / 2))) typed in
    put 10 (be16 (ipv4_checksum summed 10)) summed

-- The length of the answer, 0 for none, and the buffer.
unfoldable pub process_icmp : Node → List ℕ → ℕ × List ℕ
process_icmp n buf =
    if not (byte 0 buf == 0x45) || not (for_me n buf)
    then (0, buf)
    else (let iplen = byte 2 buf * 2 ^ 8 + byte 3 buf in
        if not (byte 9 buf == 1) || not (byte 20 buf == 8)
        then (0, buf)
        else (let total = min iplen (64 + 24) in (total, echo_reply n buf total)))
