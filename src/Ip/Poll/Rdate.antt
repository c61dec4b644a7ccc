-- ===== src/Ip/Poll/Rdate.antt =====
-- The answer of rdate_poll of lib/ipv4.c.
use wrpc_sw.Prelude.{
  ℕ, ◌≡◌, refl, ap, ◌∙◌, true, none, some, List, [], ◌++◌, take, drop, ltb, arith,
}
use wrpc_sw.Ip.Bytes.{get, put, AllBytes, same, same_self}
use wrpc_sw.Ip.Checksum.{ipv4_checksum}
use wrpc_sw.Ip.Node.{Node, for_me}
use wrpc_sw.Ip.Udp.{fill_udp}
use wrpc_sw.Ip.Udp.Layout.{Tuple, bytes, pseudo_header}
use wrpc_sw.Ip.Udp.Verifies.{fill_udp-verifies}
use wrpc_sw.Ip.Poll.{Rx, Ip, be32, from_1900, rdate_len, rdate_poll}

abbrev headers : Tuple 12 → Tuple 4 → Tuple 4 → Tuple 2 → Tuple 2 → Tuple 4 → Tuple 28
headers a src dst sport dport y = (
  a.0,
  (
    a.1.0,
    (
      a.1.1.0,
      (
        a.1.1.1.0,
        (
          a.1.1.1.1.0,
          (
            a.1.1.1.1.1.0,
            (
              a.1.1.1.1.1.1.0,
              (
                a.1.1.1.1.1.1.1.0,
                (
                  a.1.1.1.1.1.1.1.1.0,
                  (
                    a.1.1.1.1.1.1.1.1.1.0,
                    (
                      a.1.1.1.1.1.1.1.1.1.1.0,
                      (
                        a.1.1.1.1.1.1.1.1.1.1.1.0,
                        (
                          src.0,
                          (
                            src.1.0,
                            (
                              src.1.1.0,
                              (
                                src.1.1.1.0,
                                (
                                  dst.0,
                                  (
                                    dst.1.0,
                                    (
                                      dst.1.1.0,
                                      (
                                        dst.1.1.1.0,
                                        (
                                          sport.0,
                                          (
                                            sport.1.0,
                                            (
                                              dport.0,
                                              (
                                                dport.1.0,
                                                (y.0, (y.1.0, (y.1.1.0, (y.1.1.1.0, _)))),
                                              ),
                                            ),
                                          ),
                                        ),
                                      ),
                                    ),
                                  ),
                                ),
                              ),
                            ),
                          ),
                        ),
                      ),
                    ),
                  ),
                ),
              ),
            ),
          ),
        ),
      ),
    ),
  ),
)

AllBytes-be32 : (n : ℕ) → AllBytes (be32 n)
AllBytes-be32 n = omega arith

-- A UDP request in the buffer of 32 bytes.
abbrev pub request : Tuple 12 → Tuple 4 → Tuple 4 → Tuple 2 → Tuple 2 → Tuple 4 → Tuple 4 → List ℕ
request a src dst sport dport y z =
    bytes 12 a
    ++ (bytes 4 src
        ++ (bytes 4 dst ++ (bytes 2 sport ++ (bytes 2 dport ++ (bytes 4 y ++ bytes 4 z)))))

-- What is sent, for a buffer that is for the node.
abbrev answer : ℕ → List ℕ → List ℕ
answer secs buf = take rdate_len (fill_udp rdate_len none (put 28 (be32 (from_1900 secs)) buf))

rdate_poll-for_me :
    (rx : Rx) (secs : ℕ) (s : Ip)
    → ltb 0 rx.len ≡ true
    → for_me s.node rx.buf ≡ true
    → rdate_poll rx secs s ≡ record { ret = 1; sent = some (answer secs rx.buf); ip = s }
unfolding rdate_poll
rdate_poll-for_me rx secs s l m = rw (l, m) refl

for_destination :
    (a : Tuple 12) (src dst : Tuple 4) (sport dport : Tuple 2) (y z : Tuple 4) (n : Node)
    → n.my_ip ≡ bytes 4 dst
    → for_me n (request a src dst sport dport y z) ≡ true
for_destination a src dst sport dport y z n m = ap (same (bytes 4 dst)) m ∙ same_self (bytes 4 dst)

-- A request for the time that is sent to the node's address is answered by a packet from there to the
-- sender, from port to port, whose checksums verify and which carries the seconds from 1900.
pub rdate_poll-answers :
    (a : Tuple 12) (src dst : Tuple 4) (sport dport : Tuple 2) (y z : Tuple 4) (rx : Rx) (secs : ℕ)
    (s : Ip)
    → rx.buf ≡ request a src dst sport dport y z
    → ltb 0 rx.len ≡ true
    → s.node.my_ip ≡ bytes 4 dst
    → AllBytes (bytes 4 src)
      × AllBytes (bytes 4 dst)
      × AllBytes (bytes 2 sport)
      × AllBytes (bytes 2 dport)
    → (packet : List ℕ) × (rdate_poll rx secs s ≡ record { ret = 1; sent = some packet; ip = s })
      × (get 12 8 packet ≡ bytes 4 dst ++ bytes 4 src)
      × (get 20 4 packet ≡ bytes 2 dport ++ bytes 2 sport)
      × (drop 28 packet ≡ be32 (from_1900 secs))
      × (ipv4_checksum packet 10 ≡ 0)
      × (ipv4_checksum (pseudo_header rdate_len dst src ++ drop 20 packet) 12 ≡ 0)
unfolding fill_udp ipv4_checksum
rdate_poll-answers a src dst sport dport y z rx secs s b l m (sb, db, pb, qb) =
    let (header, udp) =
      fill_udp-verifies 32 (headers a src dst sport dport y) dst src dport sport
        (be32 (from_1900 secs)) [] refl (omega arith) (db, sb, qb, pb)
        (AllBytes-be32 (from_1900 secs)) in
    (
      answer secs (request a src dst sport dport y z),
      rdate_poll-for_me rx secs s l
            (ap (for_me s.node) b ∙ for_destination a src dst sport dport y z s.node m)
          ∙ ap (λ buf. record { ret = 1; sent = some (answer secs buf); ip = s }) b,
      refl,
      refl,
      refl,
      header,
      udp,
    )
