-- ===== src/Ip/Poll.antt =====
-- The polls of lib/ipv4.c and lib/arp.c. A buffer is given as it is after ptpd_netif_recvfrom, with the
-- length that call returned, 0 for a negative one; what is sent is returned. The sockets, syslog and
-- the Ethernet addresses of the packets are not part of the model. `abscal` says that an absolute
-- calibration is in progress.
pub mod Rdate
pub mod Status
use wrpc_sw.Prelude.{
  ℕ, suc, ◌+◌, ◌/◌, ◌%◌, ◌^◌, Bool, true, false, not, ◌&&◌, ◌||◌, Option, none, some, List, [], ◌∷◌,
  ◌++◌, take, ltb, ◌==◌, if◌then◌else◌,
}
use wrpc_sw.Ip.Bytes.{put, be16}
use wrpc_sw.Ip.Node.{IpStatus, ip_training, ip_ok_bootp, ip_ok_static, Node, for_me}
use wrpc_sw.Ip.Udp.{fill_udp}
use wrpc_sw.Ip.Arp.{process_arp}
use wrpc_sw.Ip.Icmp.{process_icmp}
use wrpc_sw.Ip.Bootp.{bootp_end, prepare_bootp, process_bootp}
use wrpc_sw.Tasks.{tics_per_second, wrc_task_not_yet}

-- What a receive gives.
pub record Rx : Type 0 where
  pub buf : List ℕ
  pub len : ℕ

-- The node with bootp_tics, and what a poll returns.
pub record Ip : Type 0 where
  pub node : Node
  pub bootp_tics : ℕ

pub record Polled : Type 0 where
  pub ret : ℕ
  pub sent : Option (List ℕ)
  pub ip : Ip

abbrev pub is_training : IpStatus → Bool
is_training ip_training = true
is_training _ = false

abbrev pub is_ok_bootp : IpStatus → Bool
is_ok_bootp ip_ok_bootp = true
is_ok_bootp _ = false

abbrev pub idle : Ip → Polled
idle s = record { ret = 0; sent = none; ip = s }

unfoldable pub bootp_poll : Rx → Bool → ℕ → Ip → Polled
bootp_poll rx abscal now s =
    if not (is_training s.node.ip_status)
    then idle s
    else if abscal
    then idle s
    else (let (ret, node) =
          if ltb 0 rx.len then process_bootp s.node rx.buf rx.len else (0, s.node) in
        let (wait, tics) = wrc_task_not_yet now s.bootp_tics tics_per_second in
        let retry = (node.bootp_retry + 1) % 2 ^ 16 in
        if wait
        then record { ret = ret; sent = none; ip = record { node = node; bootp_tics = tics } }
        else record {
          ret = 1;
          sent = some (take bootp_end (prepare_bootp node rx.buf retry));
          ip = record { node = record node { bootp_retry = retry }; bootp_tics = tics };
        })

unfoldable pub icmp_poll : Rx → Ip → Polled
icmp_poll rx s =
    if not (ltb 0 rx.len) || (is_training s.node.ip_status || not (for_me s.node rx.buf))
    then idle s
    else (let (len, buf) = process_icmp s.node rx.buf in
        record { ret = 1; sent = if ltb 0 len then some (take len buf) else none; ip = s })

abbrev pub be32 : ℕ → List ℕ
be32 n = be16 (n / 2 ^ 16) ++ be16 n

-- The seconds from 1900, and the time on the PPS generator in seconds from 1970.
abbrev pub from_1900 : ℕ → ℕ
from_1900 secs = (secs + 2208988800) % 2 ^ 32

abbrev pub rdate_len : ℕ
rdate_len = 32

unfoldable pub rdate_poll : Rx → ℕ → Ip → Polled
rdate_poll rx secs s = if not (ltb 0 rx.len) || not (for_me s.node rx.buf) then idle s else record {
  ret = 1;
  sent = some (take rdate_len (fill_udp rdate_len none (put 28 (be32 (from_1900 secs)) rx.buf)));
  ip = s;
}

-- What the polls of one round receive and read.
pub record Inputs : Type 0 where
  pub went_up : Bool
  pub abscal : Bool
  pub now : ℕ
  pub secs : ℕ
  pub bootp : Rx
  pub icmp : Rx
  pub rdate : Rx
  pub syslog_ret : ℕ

abbrev pub retrain : Bool → Ip → Ip
retrain went_up s =
    if went_up && is_ok_bootp s.node.ip_status
    then record s { node = record s.node { ip_status = ip_training } }
    else s

-- 1 if any of them did something, what they sent, and the state.
unfoldable pub ipv4_poll : Inputs → Ip → Bool × List (Option (List ℕ)) × Ip
ipv4_poll i s =
    let boot = bootp_poll i.bootp i.abscal i.now (retrain i.went_up s) in
    let ping = icmp_poll i.icmp boot.ip in
    let time = rdate_poll i.rdate i.secs ping.ip in
    (
      not (boot.ret + ping.ret + time.ret + i.syslog_ret == 0),
      boot.sent ∷ ping.sent ∷ time.sent ∷ [],
      time.ip,
    )

unfoldable pub arp_poll : Rx → Ip → Polled
arp_poll rx s =
    if is_training s.node.ip_status || not (ltb 0 rx.len)
    then idle s
    else (let (len, buf) = process_arp s.node rx.buf rx.len in
        record { ret = 1; sent = if ltb 0 len then some (take len buf) else none; ip = s })
