-- ===== src/Ip/Poll/Status.antt =====
-- How the polls of lib/ipv4.c change the node's address and its status.
use wrpc_sw.Prelude.{
  ℕ, ◌≡◌, refl, ap, ap₂, ◌⊎◌, ◌∙◌, Bool, true, false, not, ◌&&◌, ◌||◌, List, ltb, if◌then◌else◌,
  Bool-cases, inl, inr, arith,
}
use wrpc_sw.Ip.Bytes.{same, be16}
use wrpc_sw.Ip.Node.{IpStatus, ip_training, ip_ok_bootp, ip_ok_static, Node, for_me}
use wrpc_sw.Ip.Udp.Layout.{Tuple, bytes}
use wrpc_sw.Ip.Bootp.{bootp_end, process_bootp}
use wrpc_sw.Ip.Bootp.Offer.{bootp_packet, offered_status, process_bootp_lem}
use wrpc_sw.Tasks.{tics_per_second, wrc_task_not_yet}
use wrpc_sw.Ip.Poll.{
  Rx, Ip, Inputs, is_training, is_ok_bootp, retrain, bootp_poll, icmp_poll, rdate_poll, ipv4_poll,
}

icmp_poll-ip : (rx : Rx) (s : Ip) → (icmp_poll rx s).ip ≡ s
unfolding icmp_poll
icmp_poll-ip rx s =
    elim (Bool-cases
      (not (ltb 0 rx.len) || (is_training s.node.ip_status || not (for_me s.node rx.buf)))) [
        | inl e ↦ rw e refl
        | inr e ↦ rw e refl
      ]

rdate_poll-ip : (rx : Rx) (secs : ℕ) (s : Ip) → (rdate_poll rx secs s).ip ≡ s
unfolding rdate_poll
rdate_poll-ip rx secs s = elim (Bool-cases (not (ltb 0 rx.len) || not (for_me s.node rx.buf))) [
  | inl e ↦ rw e refl
  | inr e ↦ rw e refl
]

ipv4_poll-bootp :
    (i : Inputs) (s : Ip)
    → (ipv4_poll i s).2 ≡ (bootp_poll i.bootp i.abscal i.now (retrain i.went_up s)).ip
unfolding ipv4_poll
ipv4_poll-bootp i s =
    let boot = bootp_poll i.bootp i.abscal i.now (retrain i.went_up s) in
    rdate_poll-ip i.rdate i.secs (icmp_poll i.icmp boot.ip).ip ∙ icmp_poll-ip i.icmp boot.ip

bootp_poll_idle :
    (rx : Rx) (abscal : Bool) (now : ℕ) (s : Ip)
    → is_training s.node.ip_status ≡ false
    → (bootp_poll rx abscal now s).ip ≡ s
unfolding bootp_poll
bootp_poll_idle rx abscal now s e = rw e refl

-- The status in which the node keeps its address over a poll.
abbrev pub is_settled : Bool → IpStatus → Bool
is_settled went_up ip_training = false
is_settled went_up ip_ok_bootp = not went_up
is_settled went_up ip_ok_static = true

settled :
    (went_up : Bool) (st : IpStatus)
    → is_settled went_up st ≡ true
    → (went_up && is_ok_bootp st ≡ false) × (is_training st ≡ false)
settled went_up ip_training e = absurd (cc e)
settled true ip_ok_bootp e = absurd (cc e)
settled false ip_ok_bootp e = (refl, refl)
settled true ip_ok_static e = (refl, refl)
settled false ip_ok_static e = (refl, refl)

unsettled :
    (went_up : Bool) (st : IpStatus)
    → is_settled went_up st ≡ false
    → (went_up && is_ok_bootp st ≡ true)
      ⊎ ((went_up && is_ok_bootp st ≡ false) × (is_training st ≡ true))
unsettled true ip_training e = inr (refl, refl)
unsettled false ip_training e = inr (refl, refl)
unsettled true ip_ok_bootp e = inl refl
unsettled false ip_ok_bootp e = absurd (cc e)
unsettled went_up ip_ok_static e = absurd (cc e)

asking :
    (went_up : Bool) (s : Ip)
    → is_settled went_up s.node.ip_status ≡ false
    → (is_training (retrain went_up s).node.ip_status ≡ true)
      × ((retrain went_up s).node.mac_addr ≡ s.node.mac_addr)
asking went_up s e = elim (unsettled went_up s.node.ip_status e) [
  | inl u ↦ rw u (refl, refl)
  | inr (u, t) ↦ rw u (t, refl)
]

-- A poll that asks takes what process_bootp gives.
bootp_poll_asking :
    (rx : Rx) (abscal : Bool) (now : ℕ) (s : Ip) (n : Node)
    → is_training s.node.ip_status ≡ true
    → abscal ≡ false
    → ltb 0 rx.len ≡ true
    → process_bootp s.node rx.buf rx.len ≡ (1, n)
    → let after = (bootp_poll rx abscal now s).ip.node in
      (after.my_ip ≡ n.my_ip) × (after.ip_status ≡ n.ip_status)
unfolding bootp_poll
bootp_poll_asking rx abscal now s n t a l p =
    elim (Bool-cases (wrc_task_not_yet now s.bootp_tics tics_per_second).0) [
      | inl w ↦ rw (t, a, l, w) (ap (λ r. r.1.my_ip) p, ap (λ r. r.1.ip_status) p)
      | inr w ↦ rw (t, a, l, w) (ap (λ r. r.1.my_ip) p, ap (λ r. r.1.ip_status) p)
    ]

-- With a static address, or one from BOOTP while the link has not just come up, a poll changes nothing
-- of the node's address, whatever it receives.
pub ipv4_poll-settled :
    (i : Inputs) (s : Ip) → is_settled i.went_up s.node.ip_status ≡ true → (ipv4_poll i s).2 ≡ s
ipv4_poll-settled i s e =
    let (stays, trained) = settled i.went_up s.node.ip_status e in
    let same_ip : retrain i.went_up s ≡ s = rw stays refl in
    ipv4_poll-bootp i s
    ∙ ap (λ t. (bootp_poll i.bootp i.abscal i.now t).ip) same_ip
    ∙ bootp_poll_idle i.bootp i.abscal i.now s trained

-- A node that has no address, or whose link has come up again after one from BOOTP, takes in one poll
-- the address that a BOOTP server offers it, unless an absolute calibration is in progress, and has
-- done with asking unless the offer was 0.0.0.0.
pub ipv4_poll-acquires :
    (i : Inputs) (s : Ip) (ip : Tuple 20) (port : Tuple 2) (other : Tuple 22) (yiaddr : Tuple 4)
    (between : Tuple 8) (chaddr : Tuple 6) (rest : List ℕ)
    → is_settled i.went_up s.node.ip_status ≡ false
    → i.abscal ≡ false
    → i.bootp.buf ≡ bootp_packet ip port other yiaddr between chaddr rest
    → i.bootp.len ≡ bootp_end
    → same (bytes 2 port) (be16 67) ≡ true
    → same (bytes 6 chaddr) s.node.mac_addr ≡ true
    → ((ipv4_poll i s).2.node.my_ip ≡ bytes 4 yiaddr)
      × ((ipv4_poll i s).2.node.ip_status ≡ offered_status yiaddr)
ipv4_poll-acquires i s ip port other yiaddr between chaddr rest e a b l p c =
    let asks = retrain i.went_up s in
    let (training, mac) = asking i.went_up s e in
    let got : ltb 0 i.bootp.len ≡ true = ground (arith, l) in
    let offered : process_bootp asks.node i.bootp.buf i.bootp.len ≡ (
      1,
      record asks.node {
        my_ip = bytes 4 yiaddr;
        ip_status = offered_status yiaddr;
        bootp_retry = 0;
      },
    ) =
      ap₂ (process_bootp asks.node) b l
      ∙ process_bootp_lem asks.node ip port other yiaddr between chaddr rest bootp_end
      ∙ ap₂
          (λ x y.
            if x && y
            then (
              1,
              record asks.node {
                my_ip = bytes 4 yiaddr;
                ip_status = offered_status yiaddr;
                bootp_retry = 0;
              },
            )
            else (0, asks.node))
          p (ap (same (bytes 6 chaddr)) mac ∙ c) in
    let (address, status) =
      bootp_poll_asking i.bootp i.abscal i.now asks
        (record asks.node {
          my_ip = bytes 4 yiaddr;
          ip_status = offered_status yiaddr;
          bootp_retry = 0;
        })
        training a got offered in
    (
      ap (λ t. t.node.my_ip) (ipv4_poll-bootp i s) ∙ address,
      ap (λ t. t.node.ip_status) (ipv4_poll-bootp i s) ∙ status,
    )
