-- ===== src/Examples/Packets.antt =====
-- The IP services at concrete packets.
use wrpc_sw.Prelude.{
  ℕ, zero, suc, ◌+◌, ◌-◌, ◌/◌, ◌≡◌, refl, inr, false, some, List, [], ◌∷◌, ◌++◌, take, drop, arith,
}
use wrpc_sw.Ip.Bytes.{get}
use wrpc_sw.Ip.Checksum.{ipv4_checksum}
use wrpc_sw.Ip.Node.{ip_training, ip_ok_static, Node}
use wrpc_sw.Ip.Udp.{fill_udp}
use wrpc_sw.Ip.Udp.Layout.{Tuple, bytes, addr_of, pseudo_header}
use wrpc_sw.Ip.Udp.Verifies.{fill_udp-verifies}
use wrpc_sw.Ip.Arp.{Packet}
use wrpc_sw.Ip.Icmp.{process_icmp}
use wrpc_sw.Ip.Icmp.Echo.{Rest, echo_request, at_ip, process_icmp-verifies}
use wrpc_sw.Ip.Bootp.Offer.{bootp_packet, offered_status}
use wrpc_sw.Ip.Poll.{Rx, Ip, Inputs, be32, from_1900, rdate_len, rdate_poll, ipv4_poll}
use wrpc_sw.Ip.Poll.Status.{ipv4_poll-acquires}
use wrpc_sw.Ip.Poll.Rdate.{request, rdate_poll-answers}

abbrev two : ℕ → ℕ → Tuple 2
two a b = (a, (b, _))

abbrev four : ℕ → ℕ → ℕ → ℕ → Tuple 4
four a b c d = (a, (b, two c d))

abbrev six : ℕ → Tuple 6
six a = (a, (a, four a a a a))

-- Bytes whose value does not matter.
abbrev filler : (n : ℕ) → Tuple n
filler zero = _
filler (suc n) = (7, filler n)

abbrev my_ip : Tuple 4
my_ip = four 192 168 1 2

abbrev his_ip : Tuple 4
his_ip = four 192 168 1 254

abbrev node : Node
node = record {
  my_ip = bytes 4 my_ip;
  mac_addr = bytes 6 (six 2);
  ip_status = ip_ok_static;
  bootp_retry = 3;
}

fill_udp-verifies_example :
    let packet =
      fill_udp 31
        (some (addr_of my_ip his_ip (two 0 68) (two 0 67)))
        (bytes 28 (filler 28) ++ ((1 ∷ 2 ∷ 3 ∷ []) ++ (9 ∷ []))) in
    (ipv4_checksum packet 10 ≡ 0)
    × (ipv4_checksum (pseudo_header 31 my_ip his_ip ++ drop 20 (take 31 packet)) ((31 + 1 - 8) / 2)
        ≡ 0)
fill_udp-verifies_example =
    fill_udp-verifies 31 (filler 28) my_ip his_ip (two 0 68) (two 0 67) (1 ∷ 2 ∷ 3 ∷ []) (9 ∷ [])
      refl (omega arith) (omega arith) (omega arith)

abbrev asks : Packet
asks = record { oper = 1; sha = six 5; spa = his_ip; tha = six 0; tpa = my_ip }

abbrev ping : Rest
ping = record {
  tos = 0;
  id_flags = four 1 2 0 0;
  ttl = 64;
  checksum = two 0 0;
  code = 0;
  icmp_checksum = two 0 0;
}

process_icmp-verifies_example :
    let (len, packet) =
      process_icmp
        (at_ip my_ip node)
        (echo_request ping his_ip my_ip (1 ∷ 2 ∷ 3 ∷ []) ++ (0 ∷ 9 ∷ [])) in
    (len ≡ 27)
    × (get 12 8 packet ≡ bytes 4 my_ip ++ bytes 4 his_ip)
    × (drop 24 packet ≡ (1 ∷ 2 ∷ 3 ∷ []) ++ (0 ∷ 9 ∷ []))
    × (ipv4_checksum packet 10 ≡ 0)
    × (ipv4_checksum (drop 20 (take len packet)) ((len - 20 + 1) / 2) ≡ 0)
process_icmp-verifies_example =
    process_icmp-verifies node ping his_ip my_ip (1 ∷ 2 ∷ 3 ∷ []) (omega arith) (0 ∷ 9 ∷ [])
      (omega arith) (omega arith) (omega arith) (inr refl)

abbrev nothing : Rx
nothing = record { buf = []; len = 0 }

abbrev offer : List ℕ
offer = bootp_packet (filler 20) (two 0 67) (filler 22) my_ip (filler 8) (six 2) []

abbrev inputs : Inputs
inputs = record {
  went_up = false;
  abscal = false;
  now = 5000;
  secs = 100;
  bootp = record { buf = offer; len = 328 };
  icmp = nothing;
  rdate = nothing;
  syslog_ret = 0;
}

abbrev training : Ip
training = record {
  node = record node { ip_status = ip_training; my_ip = bytes 4 (four 0 0 0 0) };
  bootp_tics = 4500;
}

ipv4_poll-acquires_example :
    ((ipv4_poll inputs training).2.node.my_ip ≡ bytes 4 my_ip)
    × ((ipv4_poll inputs training).2.node.ip_status ≡ offered_status my_ip)
ipv4_poll-acquires_example =
    ipv4_poll-acquires inputs training (filler 20) (two 0 67) (filler 22) my_ip (filler 8) (six 2)
      [] refl refl refl refl refl refl

abbrev answering : Ip
answering = record { node = node; bootp_tics = 0 }

abbrev asks_time : Rx
asks_time = record {
  buf = request (filler 12) his_ip my_ip (two 200 1) (two 0 37) (filler 4) (filler 4);
  len = 28;
}

rdate_poll-answers_example :
    (packet : List ℕ) × (rdate_poll asks_time 100 answering
      ≡ record { ret = 1; sent = some packet; ip = answering })
    × (get 12 8 packet ≡ bytes 4 my_ip ++ bytes 4 his_ip)
    × (get 20 4 packet ≡ bytes 2 (two 0 37) ++ bytes 2 (two 200 1))
    × (drop 28 packet ≡ be32 (from_1900 100))
    × (ipv4_checksum packet 10 ≡ 0)
    × (ipv4_checksum (pseudo_header rdate_len my_ip his_ip ++ drop 20 packet) 12 ≡ 0)
rdate_poll-answers_example =
    rdate_poll-answers (filler 12) his_ip my_ip (two 200 1) (two 0 37) (filler 4) (filler 4)
      asks_time 100 answering refl refl refl (omega arith)
