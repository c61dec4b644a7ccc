-- ===== src/Net/Sockq/Truncation.antt =====
-- wrap_copy_in of lib/net.c when the caller's buffer is shorter than the packet.
use wrpc_sw.Prelude.{
  ℕ, zero, suc, ◌+◌, ◌-◌, ◌*◌, ◌%◌, ◌^◌, ◌≤◌, ◌<◌, min, ◌≡◌, refl, inl, inr, true, false, arith,
  ltb, ◌==◌, Bool-cases,
}
use wrpc_sw.Net.Sockq.{Sockq, advance, copy_in, reduce_tail, wrap_copy_in}

-- In a ring that is not empty, as much fuel as the tail's value runs the second loop of wrap_copy_in
-- to its end: the tail is at most the size, and less by a multiple of it.
pub reduce_tail_lem :
    (fuel : ℕ) (q : Sockq)
    → 0 < q.size
    → q.tail ≤ fuel
    → let t = (reduce_tail fuel q).tail in
      (t ≤ q.size) × (t ≤ q.tail) × ((j : ℕ) × (q.tail ≡ t + j * q.size))
unfolding reduce_tail
reduce_tail_lem zero q h m = (omega arith, omega arith, (0, omega arith))
reduce_tail_lem (suc k) q h m = elim (Bool-cases (ltb q.size q.tail)) [
  | inl z ↦
      let (a, b, (j, e)) =
        reduce_tail_lem k (record q { tail = q.tail - q.size }) h (ground arith) in
      rw z (a, omega (arith, b), (suc j, ground (arith, e)))
  | inr z ↦ rw z (ground arith, omega arith, (0, omega arith))
]

copy_in-tail :
    (k : ℕ) (q : Sockq)
    → q.size < 2 ^ 16
    → q.tail + k < q.size
    → ((copy_in k q).1.tail ≡ q.tail + k) × ((copy_in k q).1.size ≡ q.size)
unfolding copy_in advance
copy_in-tail zero q h m = (omega arith, refl)
copy_in-tail (suc k) q h m =
    let e : advance q q.tail ≡ q.tail + 1 = ground arith in
    let (t, s) = copy_in-tail k (record q { tail = advance q q.tail }) h (omega (arith, e)) in
    (omega (arith, t, e), s)

stays : (fuel : ℕ) (r : Sockq) → r.size ≡ r.tail → (reduce_tail fuel r).tail ≡ r.tail
unfolding reduce_tail
stays zero r e = refl
stays (suc k) r e = ground arith

-- When a packet that ends with the array of the ring is cut short by the caller's buffer, the tail
-- is left at the size of the ring, one past its last byte.
pub wrap_copy_in-overrun :
    (q : Sockq) (len buflen : ℕ)
    → q.size < 2 ^ 16
    → q.tail + len ≡ q.size
    → 0 < buflen
    → buflen < len
    → (wrap_copy_in q len buflen).1.tail ≡ q.size
unfolding wrap_copy_in
wrap_copy_in-overrun q len buflen h e p m =
    let given : (buflen == 0) ≡ false = ground arith in
    let short : ltb buflen len ≡ true = ground arith in
    let least : min len buflen ≡ buflen = omega arith in
    let (t, s) = copy_in-tail buflen q h (omega arith) in
    let last : ((copy_in buflen q).1.tail + (len - buflen)) % 2 ^ 16 ≡ q.size = omega (arith, t) in
    rw (given, short, least, last) (stays q.size (record (copy_in buflen q).1 { tail = q.size }) s)
