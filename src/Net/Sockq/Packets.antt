-- ===== src/Net/Sockq/Packets.antt =====
-- The packet queue of lib/net.c as a queue of packets: what netif_poll stores, ptpd_netif_recvfrom
-- takes, in the same order.
use wrpc_sw.Prelude.{
  ℕ, ◌+◌, ◌-◌, ◌*◌, ◌/◌, ◌%◌, ◌^◌, ◌≤◌, ◌<◌, ◌≡◌, refl, sym, ap, ◌∙◌, ◌⊎◌, inl, inr, false,
  length-append, none, some, List, [], ◌∷◌, ◌++◌, arith, length, get_or, ◌==◌,
}
use wrpc_sw.Prelude.{dec_lt, Option, none}
use mathlib.Core.Path.{subst}
use mathlib.Core.List.{append-nil, append_assoc}
use wrpc_sw.Net.Sockq.{
  Sockq, Packet, copy_in, wrap_copy_in, put_bytes, get_bytes, store_packet, take_packet,
}
use wrpc_sw.Net.Sockq.Fifo.{IsRing, wrap_copy_out_lem, copy_in_lem}

-- The ring holds the bytes l and counts the free ones.
pub record IsQueue (q : Sockq) (l : List ℕ) : Type 0 where
  pub ring : IsRing q l
  pub counted : q.avail + length l ≡ q.size

recount : (q : Sockq) (l : List ℕ) (a m : ℕ) → IsRing q l → IsRing (record q { avail = a; n = m }) l
recount q l a m r = record {
  long = r.long;
  small = r.small;
  tail_in = r.tail_in;
  fits = r.fits;
  head_at = r.head_at;
  reads = r.reads;
}

recounted : (q : Sockq) (l : List ℕ) (m : ℕ) → IsQueue q l → IsQueue (record q { n = m }) l
recounted q l m h = record { ring = recount q l q.avail m h.ring; counted = h.counted }

put_bytes_lem :
    (bs : List ℕ) (q : Sockq) (l : List ℕ)
    → IsQueue q l
    → length bs ≤ q.avail
    → let q' = put_bytes q bs in
      IsQueue q' (l ++ bs) × (q'.avail + length bs ≡ q.avail) × (q'.n ≡ q.n)
unfolding put_bytes
put_bytes_lem bs q l h m =
    let (r, (s, a, n)) = wrap_copy_out_lem bs q l h.ring (omega (arith, h.counted)) in
    let e = length-append l bs in
    let left : (put_bytes q bs).avail + length bs ≡ q.avail =
      omega (arith, a, m, h.ring.small, h.counted) in
    (record { ring = recount _ _ _ _ r; counted = omega (arith, e, left, s, h.counted) }, left, n)

copy_whole :
    (q : Sockq) (len buflen : ℕ)
    → (buflen ≡ 0) ⊎ (len ≤ buflen)
    → wrap_copy_in q len buflen ≡ copy_in len q
unfolding wrap_copy_in
copy_whole q len buflen (inl e) = ground arith
copy_whole q len buflen (inr m) = ground arith

get_bytes_lem :
    (xs : List ℕ) (buflen : ℕ) (q : Sockq) (l : List ℕ)
    → IsQueue q (xs ++ l)
    → (buflen ≡ 0) ⊎ (length xs ≤ buflen)
    → let (bs, q') = get_bytes q (length xs) buflen in (bs ≡ xs) × IsQueue q' l × (q'.n ≡ q.n)
unfolding get_bytes
get_bytes_lem xs buflen q l h m =
    let (b, r, (s, a, n)) = copy_in_lem xs q l h.ring in
    let e = length-append xs l in
    rw (copy_whole q (length xs) buflen m) (
      b,
      record {
        ring = recount _ _ _ _ r;
        counted = omega (arith, e, a, s, h.ring.small, h.counted);
      },
      n,
    )

-- The bytes of a packet in the queue.
abbrev pub encode : Packet → List ℕ
encode p =
    (length p.payload % 256 ∷ length p.payload / 256 % 256 ∷ []) ++ (p.hwts ++ (p.hdr ++ p.payload))

abbrev pub encode_all : List Packet → List ℕ
encode_all [] = []
encode_all (p ∷ ps) = encode p ++ encode_all ps

encode_all-append :
    (ps : List Packet) (p : Packet) → encode_all (ps ++ (p ∷ [])) ≡ encode_all ps ++ encode p
encode_all-append [] p = append-nil (encode p)
encode_all-append (x ∷ ps) p =
    ap (λ l. encode x ++ l) (encode_all-append ps p)
    ∙ sym (append_assoc (encode x) (encode_all ps) (encode p))

length-encode :
    (p : Packet) → length (encode p) ≡ length p.hdr + length p.payload + length p.hwts + 2
length-encode p =
    omega (arith, length-append p.hwts (p.hdr ++ p.payload), length-append p.hdr p.payload)

-- The queue holds these packets and counts them.
pub record HasPackets (q : Sockq) (ps : List Packet) : Type 0 where
  pub queue : IsQueue q (encode_all ps)
  pub number : q.n ≡ length ps

packets_few : (ps : List Packet) → length ps ≤ length (encode_all ps)
packets_few [] = omega arith
packets_few (p ∷ ps) =
    omega (arith, packets_few ps, length-append (encode p) (encode_all ps), length-encode p)

-- The queue after the four copies of netif_poll.
abbrev put_packet : Sockq → Packet → Sockq
put_packet q p =
    let q1 = put_bytes q (length p.payload % 256 ∷ length p.payload / 256 % 256 ∷ []) in
    put_bytes (put_bytes (put_bytes q1 p.hwts) p.hdr) p.payload

put_all :
    (q : Sockq) (l : List ℕ) (p : Packet)
    → IsQueue q l
    → length (encode p) ≤ q.avail
    → IsQueue (put_packet q p) (l ++ encode p) × ((put_packet q p).n ≡ q.n)
put_all q l p h m =
    let two = length p.payload % 256 ∷ length p.payload / 256 % 256 ∷ [] in
    let e = length-encode p in
    let (h1, a1, n1) = put_bytes_lem two q l h (omega arith) in
    let q1 = put_bytes q two in
    let (h2, a2, n2) = put_bytes_lem p.hwts q1 (l ++ two) h1 (omega arith) in
    let q2 = put_bytes q1 p.hwts in
    let (h3, a3, n3) = put_bytes_lem p.hdr q2 ((l ++ two) ++ p.hwts) h2 (omega arith) in
    let q3 = put_bytes q2 p.hdr in
    let (h4, a4, n4) =
      put_bytes_lem p.payload q3 (((l ++ two) ++ p.hwts) ++ p.hdr) h3 (omega arith) in
    (subst (IsQueue _) (joined l two p.hwts p.hdr p.payload) h4, n4 ∙ n3 ∙ n2 ∙ n1)
  where
    joined : (a b c d e : List ℕ) → (((a ++ b) ++ c) ++ d) ++ e ≡ a ++ (b ++ (c ++ (d ++ e)))
    joined a b c d e =
        append_assoc ((a ++ b) ++ c) d e
        ∙ append_assoc (a ++ b) c (d ++ e)
        ∙ append_assoc a b (c ++ (d ++ e))

store_branches :
    (q : Sockq) (ps : List Packet) (p : Packet)
    → HasPackets q ps
    → (q.avail < length (encode p) → store_packet q p ≡ none)
      × (length (encode p) ≤ q.avail
          → (q' : Sockq) × (store_packet q p ≡ some q') × HasPackets q' (ps ++ (p ∷ [])))
unfolding store_packet
store_branches q ps p h = (
  λ m. ground (arith, length-encode p),
  λ m.
      let (r, n) = put_all q (encode_all ps) p h.queue m in
      (
        record (put_packet q p) { n = ((put_packet q p).n + 1) % 2 ^ 16 },
        ground (arith, length-encode p),
        record {
          queue = subst (IsQueue _) (sym (encode_all-append ps p)) (recounted _ _ _ r);
          number = omega (
            arith,
            n,
            h.number,
            length-append ps (p ∷ []),
            packets_few ps,
            h.queue.counted,
            h.queue.ring.small,
          );
        },
      ),
)

-- What storing a packet in a queue of these packets results in.
abbrev pub Stores : Sockq → List Packet → Packet → Option Sockq → Type 0
Stores q ps p none = q.avail < length (encode p)
Stores q ps p (some q') = (length (encode p) ≤ q.avail) × HasPackets q' (ps ++ (p ∷ []))

-- The end of netif_poll adds the packet behind the others exactly when the queue has room for it,
-- and otherwise stores nothing.
pub store_packet_lem :
    (q : Sockq) (ps : List Packet) (p : Packet) → HasPackets q ps → Stores q ps p (store_packet q p)
store_packet_lem q ps p h = elim (dec_lt q.avail (length (encode p))) [
  | yes m ↦ rw ((store_branches q ps p h).0 m) m
  | no m ↦ let (q', e, k) = (store_branches q ps p h).1 (omega arith) in rw e (omega arith, k)
]

split_lem : (a b c d e : List ℕ) → (a ++ (b ++ (c ++ d))) ++ e ≡ a ++ (b ++ (c ++ (d ++ e)))
split_lem a b c d e =
    append_assoc a (b ++ (c ++ d)) e
    ∙ ap (λ l. a ++ l) (append_assoc b (c ++ d) e)
    ∙ ap (λ l. a ++ (b ++ l)) (append_assoc c d e)

-- ptpd_netif_recvfrom takes the oldest packet, whole when the caller's buffer is large enough for
-- its payload, and leaves the others.
pub take_packet_lem :
    (q : Sockq) (p : Packet) (ps : List Packet) (data_length : ℕ)
    → HasPackets q (p ∷ ps)
    → length p.payload ≤ data_length
    → length p.payload < 2 ^ 16
    → (q' : Sockq) × (take_packet (length p.hwts) (length p.hdr) q data_length ≡ some (p, q'))
      × HasPackets q' ps
unfolding take_packet
take_packet_lem q p ps data_length h m k =
    let two = length p.payload % 256 ∷ length p.payload / 256 % 256 ∷ [] in
    let rest = p.payload ++ encode_all ps in
    let q0 = record q { n = q.n - 1 } in
    let (b1, h1, n1) =
      get_bytes_lem two 0 q0 (p.hwts ++ (p.hdr ++ rest))
        (recounted q _ (q.n - 1)
          (subst (IsQueue q) (split_lem two p.hwts p.hdr p.payload (encode_all ps)) h.queue))
        (inl refl) in
    let q1 = (get_bytes q0 2 0).1 in
    let (b2, h2, n2) = get_bytes_lem p.hwts 0 q1 (p.hdr ++ rest) h1 (inl refl) in
    let q2 = (get_bytes q1 (length p.hwts) 0).1 in
    let (b3, h3, n3) = get_bytes_lem p.hdr 0 q2 rest h2 (inl refl) in
    let q3 = (get_bytes q2 (length p.hdr) 0).1 in
    let (b4, h4, n4) = get_bytes_lem p.payload data_length q3 (encode_all ps) h3 (inr m) in
    let q4 = (get_bytes q3 (length p.payload) data_length).1 in
    let size : length p.payload % 256 + 256 * (length p.payload / 256 % 256) ≡ length p.payload =
      omega (arith, k) in
    let waiting : (q.n == 0) ≡ false = ground (arith, h.number) in
    (
      q4,
      rw (waiting, ap (λ l. get_or l 0 0 + 256 * get_or l 1 0) b1 ∙ size, b2, b3, b4) refl,
      record { queue = h4; number = omega (arith, n1, n2, n3, n4, h.number) },
    )
