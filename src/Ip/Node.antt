-- ===== src/Ip/Node.antt =====
-- The node's address, of lib/ipv4.c and include/wrc_global.h.
use wrpc_sw.Prelude.{ℕ, ◌+◌, ◌*◌, ◌^◌, Bool, List, take, ◌==◌, if◌then◌else◌}
use wrpc_sw.Ip.Bytes.{get, byte, same}

pub data IpStatus : Type 0 where
  ip_training : IpStatus
  ip_ok_bootp : IpStatus
  ip_ok_static : IpStatus

-- The IP part of wrc_global_link, with the endpoint's MAC address and bootp_retry.
pub record Node : Type 0 where
  pub my_ip : List ℕ
  pub mac_addr : List ℕ
  pub ip_status : IpStatus
  pub bootp_retry : ℕ

unfoldable pub set_ip : List ℕ → Node → Node
set_ip ip n =
    let address = byte 0 ip * 2 ^ 24 + byte 1 ip * 2 ^ 16 + byte 2 ip * 2 ^ 8 + byte 3 ip in
    record n {
      my_ip = take 4 ip;
      ip_status = if address == 0 then ip_training else n.ip_status;
      bootp_retry = 0;
    }

-- check_dest_ip gives 0
abbrev pub for_me : Node → List ℕ → Bool
for_me n buf = same (get 16 4 buf) n.my_ip
