-- ===== src/Net/Sockq.antt =====
-- A socket's packet queue, lib/net.c: a ring of bytes, `struct sockq` of include/net.h, the copies
-- into and out of it, and the way ptpd_netif_recvfrom and netif_poll take and store a packet. The
-- two structs in front of a packet are the bytes they occupy in memory, in numbers that are
-- parameters, since include files outside this code and the compiler fix them.
pub mod Fifo
pub mod Packets
pub mod Truncation
use wrpc_sw.Prelude.{
  ℕ, zero, suc, ◌+◌, ◌-◌, ◌*◌, ◌/◌, ◌%◌, ◌^◌, ◌≤◌, ◌<◌, min, bit_and, bit_or, ◌≡◌, refl, sym, ap,
  ◌∙◌, ◌≢◌, ◌↔◌, ◌⊎◌, inl, inr, Bool, true, false, not, ◌&&◌, ◌||◌, drop, take, Option, none, some,
  List, [], ◌∷◌, ◌++◌, map, arith, length, get_or, set, get_elem?, ltb, leb, ◌==◌, if◌then◌else◌,
  Bool-cases, Option-cases, dec_lt, dec_le,
}
use wrpc_sw.Prelude.Int.{
  ℤ, pos, negsuc, pos_part, neg_part, ◌+ℤ◌, ◌-ℤ◌, ◌*ℤ◌, ◌≤ℤ◌, ◌<ℤ◌, ltb_ℤ, leb_ℤ, eqb_ℤ, i32, i64,
  sar, tdiv, neg, low_bits, Fits32, i32_of_Fits32, +ℤ_parts, -ℤ_parts, eq_of_parts, parts_of_eq,
  word_laws,
}

pub record Sockq : Type 0 where
  pub head : ℕ
  pub tail : ℕ
  pub avail : ℕ
  pub size : ℕ
  pub n : ℕ
  pub buff : List ℕ

-- `i++; if (i == q->size) i = 0;` on a uint16_t.
unfoldable pub advance : Sockq → ℕ → ℕ
advance q i = let j = (i + 1) % 2 ^ 16 in if j == q.size then 0 else j

-- The queue's part of ptpd_netif_create_socket.
unfoldable pub reset_queue : ℕ → Sockq → Sockq
reset_queue len q = record q {
  head = 0;
  tail = 0;
  avail = len % 2 ^ 16;
  size = len % 2 ^ 16;
  n = 0;
}

-- The first loop of wrap_copy_in, k bytes.
unfoldable pub copy_in : ℕ → Sockq → List ℕ × Sockq
copy_in zero q = ([], q)
copy_in (suc k) q =
    let (bs, q') = copy_in k (record q { tail = advance q q.tail }) in
    (get_or q.buff q.tail 0 ∷ bs, q')

-- The second loop, `while (q->tail > q->size) q->tail -= q->size;`. Each round takes off at least 1
-- unless the size is 0, so that the tail itself is fuel enough.
unfoldable pub reduce_tail : ℕ → Sockq → Sockq
reduce_tail zero q = q
reduce_tail (suc k) q =
    let rest = reduce_tail k (record q { tail = q.tail - q.size }) in
    if ltb q.size q.tail then rest else q

-- The bytes copied, and the queue with `avail` not yet changed. The result of the C function is len.
unfoldable pub wrap_copy_in : Sockq → (len buflen : ℕ) → List ℕ × Sockq
wrap_copy_in q len buflen0 =
    let buflen = if buflen0 == 0 then len else buflen0 in
    let (bs, q') = copy_in (min len buflen) q in
    if ltb buflen len
    then (let t = (q'.tail + (len - buflen)) % 2 ^ 16 in
        (bs, reduce_tail t (record q' { tail = t })))
    else (bs, q')

unfoldable pub wrap_copy_out : Sockq → List ℕ → Sockq
wrap_copy_out q [] = q
wrap_copy_out q (b ∷ bs) =
    wrap_copy_out (record q { buff = set q.buff q.head b; head = advance q q.head }) bs

-- `q->avail -= wrap_copy_out(...)` and `q->avail += wrap_copy_in(...)` on a uint16_t.
unfoldable pub put_bytes : Sockq → List ℕ → Sockq
put_bytes q bs =
    let q' = wrap_copy_out q bs in
    record q' { avail = (q'.avail + 2 ^ 16 - length bs % 2 ^ 16) % 2 ^ 16 }

unfoldable pub get_bytes : Sockq → (len buflen : ℕ) → List ℕ × Sockq
get_bytes q len buflen =
    let (bs, q') = wrap_copy_in q len buflen in
    (bs, record q' { avail = (q'.avail + len) % 2 ^ 16 })

-- A packet as the queue holds it: the struct hw_timestamp, the struct wr_ethhdr and the payload.
pub record Packet : Type 0 where
  pub hwts : List ℕ
  pub hdr : List ℕ
  pub payload : List ℕ

-- The end of netif_poll: none when the queue has no room. `size` is a little-endian uint16_t.
unfoldable pub store_packet : Sockq → Packet → Option Sockq
store_packet q p =
    let recvd = length p.payload in
    let q_required = length p.hdr + recvd + length p.hwts + 2 in
    if ltb q.avail q_required
    then none
    else (let q1 = put_bytes q (recvd % 256 ∷ recvd / 256 % 256 ∷ []) in
        let q2 = put_bytes q1 p.hwts in
        let q3 = put_bytes q2 p.hdr in
        let q4 = put_bytes q3 p.payload in some (record q4 { n = (q4.n + 1) % 2 ^ 16 }))

-- The queue's part of ptpd_netif_recvfrom: none when nothing waits. The caller's buffer has
-- data_length bytes.
unfoldable pub take_packet :
    (hwts_size hdr_size : ℕ) → Sockq → (data_length : ℕ) → Option (Packet × Sockq)
take_packet hwts_size hdr_size q data_length =
    if q.n == 0
    then none
    else (let (sz, q1) = get_bytes (record q { n = q.n - 1 }) 2 0 in
        let (hwts, q2) = get_bytes q1 hwts_size 0 in
        let (hdr, q3) = get_bytes q2 hdr_size 0 in
        let size = get_or sz 0 0 + 256 * get_or sz 1 0 in
        let (payload, q4) = get_bytes q3 size data_length in
        some (record { hwts = hwts; hdr = hdr; payload = payload }, q4))
