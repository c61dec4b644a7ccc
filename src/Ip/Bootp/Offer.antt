-- ===== src/Ip/Bootp/Offer.antt =====
-- What process_bootp of lib/bootp.c makes of an offer.
use wrpc_sw.Prelude.{
  ℕ, ◌+◌, ◌*◌, ◌^◌, ◌≡◌, refl, inl, inr, ◌&&◌, List, ◌++◌, ◌==◌, if◌then◌else◌, arith, Bool-cases,
}
use wrpc_sw.Ip.Bytes.{be16, same}
use wrpc_sw.Ip.Node.{IpStatus, ip_training, ip_ok_bootp, Node, set_ip}
use wrpc_sw.Ip.Udp.Layout.{Tuple, bytes}
use wrpc_sw.Ip.Bootp.{bootp_end, process_bootp}

-- A packet from the server's port, as far as the node reads it: what stands around the port, the
-- address that is offered, the hardware address it is for, and the rest.
abbrev pub bootp_packet :
    Tuple 20 → Tuple 2 → Tuple 22 → Tuple 4 → Tuple 8 → Tuple 6 → List ℕ → List ℕ
bootp_packet ip port other yiaddr between chaddr rest =
    bytes 20 ip
    ++ (bytes 2 port
        ++ (bytes 22 other ++ (bytes 4 yiaddr ++ (bytes 8 between ++ (bytes 6 chaddr ++ rest)))))

-- The offer of 0.0.0.0 keeps the node asking.
abbrev pub offered_status : Tuple 4 → IpStatus
offered_status (a, (b, (c, (d, _)))) =
    if ((a == 0) && (b == 0)) && ((c == 0) && (d == 0)) then ip_training else ip_ok_bootp

all_zero :
    (a b c d : ℕ)
    → (a * 2 ^ 24 + b * 2 ^ 16 + c * 2 ^ 8 + d == 0)
      ≡ (((a == 0) && (b == 0)) && ((c == 0) && (d == 0)))
all_zero a b c d = ground arith

-- A packet of 328 bytes from the server's port 67 that is for the node's MAC address sets the address
-- it offers, and ends the training unless that is 0.0.0.0. Any other packet changes nothing.
pub process_bootp_lem :
    (n : Node) (ip : Tuple 20) (port : Tuple 2) (other : Tuple 22) (yiaddr : Tuple 4)
    (between : Tuple 8) (chaddr : Tuple 6) (rest : List ℕ) (len : ℕ)
    → process_bootp n (bootp_packet ip port other yiaddr between chaddr rest) len ≡ (
        if (len == bootp_end) && (same (bytes 2 port) (be16 67) && same (bytes 6 chaddr) n.mac_addr)
        then (
          1,
          record n { my_ip = bytes 4 yiaddr; ip_status = offered_status yiaddr; bootp_retry = 0 },
        )
        else (0, n))
unfolding process_bootp set_ip
process_bootp_lem n ip port other yiaddr between chaddr rest len =
    elim (Bool-cases (len == bootp_end)) [
      | inr e ↦ rw e refl
      | inl e ↦ elim (Bool-cases (port.0 == 0)) [
        | inr p ↦ rw (e, p) refl
        | inl p ↦ elim (Bool-cases (port.1.0 == 67)) [
          | inr q ↦ rw (e, p, q) refl
          | inl q ↦ elim (Bool-cases (same (bytes 6 chaddr) n.mac_addr)) [
            | inr s ↦ rw (e, p, q, s) refl
            | inl s ↦ rw (e, p, q, s, all_zero yiaddr.0 yiaddr.1.0 yiaddr.1.1.0 yiaddr.1.1.1.0) refl
          ]
        ]
      ]
    ]
