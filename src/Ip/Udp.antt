-- ===== src/Ip/Udp.antt =====
-- fill_udp of lib/udp.c. The offsets are those of lib/ipv4.h: the IP header is at 0, the UDP header at
-- 20, the payload at 28; the pseudo header lies at 8 to 19 until the IP header is written over it. A
-- byte at len, which the buffer need not have, is then neither read nor written.
pub mod Layout
pub mod Verifies
use wrpc_sw.Prelude.{
  ℕ, suc, ◌+◌, ◌-◌, ◌/◌, ◌%◌, ◌^◌, Option, none, some, List, [], ◌∷◌, ◌++◌, drop, set, ◌==◌,
  if◌then◌else◌,
}
use wrpc_sw.Ip.Bytes.{get, put, byte, be16}
use wrpc_sw.Ip.Checksum.{ipv4_checksum}

-- wr_udp_addr, in network order
pub record UdpAddr : Type 0 where
  pub saddr : List ℕ
  pub daddr : List ℕ
  pub sport : List ℕ
  pub dport : List ℕ

-- The addresses of a reply.
abbrev pub reply_addr : List ℕ → UdpAddr
reply_addr buf = record {
  saddr = get 16 4 buf;
  daddr = get 12 4 buf;
  sport = get 22 2 buf;
  dport = get 20 2 buf;
}

-- The pseudo header and the UDP header, with a checksum of 0.
abbrev pub udp_headers : ℕ → UdpAddr → List ℕ → List ℕ
udp_headers len a buf =
    let addressed = put 12 a.daddr (put 8 a.saddr buf) in
    let pseudo = put 16 (0 ∷ 0x11 ∷ be16 (len - 20)) addressed in
    let ports = put 22 a.dport (put 20 a.sport pseudo) in
    put 24 (be16 (len - 20) ++ (0 ∷ 0 ∷ [])) ports

abbrev pub udp_checksum : ℕ → List ℕ → ℕ
udp_checksum len buf =
    let sum = ipv4_checksum (drop 8 (set buf len 0)) ((len + 1 - 8) / 2) in
    if sum == 0 then 0xffff else sum

-- The IP header.
abbrev pub ip_header : ℕ → UdpAddr → List ℕ → List ℕ
ip_header len a buf =
    let fields = put 0 (0x45 ∷ 0 ∷ (be16 len ++ (0 ∷ 0 ∷ 0 ∷ 0 ∷ 63 ∷ 17 ∷ 0 ∷ 0 ∷ []))) buf in
    let addressed = put 16 a.daddr (put 12 a.saddr fields) in
    put 10 (be16 (ipv4_checksum addressed 10)) addressed

abbrev pub fill_addressed : ℕ → UdpAddr → List ℕ → List ℕ
fill_addressed len a buf =
    let headers = udp_headers len a buf in
    let padded = set headers len 0 in
    let restored = set padded len (byte len headers) in
    ip_header len a (put 26 (be16 (udp_checksum len headers)) restored)

unfoldable pub fill_udp : ℕ → Option UdpAddr → List ℕ → List ℕ
fill_udp len none buf = fill_addressed len (reply_addr buf) buf
fill_udp len (some a) buf = fill_addressed len a buf
