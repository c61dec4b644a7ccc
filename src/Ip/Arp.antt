-- ===== src/Ip/Arp.antt =====
-- process_arp of lib/arp.c. The fields of an ARP packet are at 0 (hardware and protocol type, their
-- lengths, the operation), 8 (sender), 18 (target) up to 28.
use wrpc_sw.Prelude.{
  ℕ, ◌≤◌, ◌≡◌, refl, false, not, ◌||◌, ◌&&◌, List, [], ◌∷◌, ◌++◌, ltb, ◌==◌, if◌then◌else◌, arith,
  inl, inr, Bool-cases,
}
use wrpc_sw.Ip.Bytes.{get, put, byte, same}
use wrpc_sw.Ip.Node.{Node}
use wrpc_sw.Ip.Udp.Layout.{Tuple, bytes}

abbrev pub arp_end : ℕ
arp_end = 28

-- The length of the answer, 0 for none, and the buffer.
unfoldable pub process_arp : Node → List ℕ → ℕ → ℕ × List ℕ
process_arp n buf len =
    if ltb len arp_end
    then (0, buf)
    else if not (byte 6 buf == 0) || (not (byte 7 buf == 1) || not (same (get 24 4 buf) n.my_ip))
    then (0, buf)
    else (let his_mac = get 8 6 buf in
        let his_ip = get 14 4 buf in
        let types = put 0 (0 ∷ 1 ∷ 8 ∷ 0 ∷ 6 ∷ 4 ∷ 0 ∷ 2 ∷ []) buf in
        let mine = put 14 n.my_ip (put 8 n.mac_addr types) in
        (arp_end, put 24 his_ip (put 18 his_mac mine)))

-- An ARP packet over Ethernet and IPv4: the operation, the sender's and the target's addresses.
pub record Packet : Type 0 where
  pub oper : ℕ
  pub sha : Tuple 6
  pub spa : Tuple 4
  pub tha : Tuple 6
  pub tpa : Tuple 4

abbrev pub packet_bytes : Packet → List ℕ
packet_bytes p =
    0
    ∷ 1
    ∷ 8
    ∷ 0
    ∷ 6
    ∷ 4
    ∷ 0
    ∷ p.oper
    ∷ (bytes 6 p.sha ++ (bytes 4 p.spa ++ (bytes 6 p.tha ++ bytes 4 p.tpa)))

-- A request for the node's address is answered by the packet that has the node as the sender and the
-- one who asked as the target. Any other packet of that form is left as it is, without an answer.
pub process_arp_lem :
    (p : Packet) (mac : Tuple 6) (ip : Tuple 4) (n : Node) (rest : List ℕ) (len : ℕ)
    → n.mac_addr ≡ bytes 6 mac
    → n.my_ip ≡ bytes 4 ip
    → arp_end ≤ len
    → process_arp n (packet_bytes p ++ rest) len ≡ (
        if (p.oper == 1) && same (bytes 4 p.tpa) n.my_ip
        then (
          arp_end,
          packet_bytes record { oper = 2; sha = mac; spa = ip; tha = p.sha; tpa = p.spa } ++ rest,
        )
        else (0, packet_bytes p ++ rest))
unfolding process_arp
process_arp_lem p mac ip n rest len m i h =
    let long : ltb len arp_end ≡ false = ground arith in
    elim (Bool-cases (p.oper == 1)) [
      | inl o ↦ elim (Bool-cases (same (bytes 4 p.tpa) n.my_ip)) [
        | inl s ↦ rw (long, o, s, m, i) refl
        | inr s ↦ rw (long, o, s) refl
      ]
      | inr o ↦ rw (long, o) refl
    ]
