-- ===== src/Net/Sockq/Fifo.antt =====
-- The packet queue of lib/net.c as a queue of bytes.
use wrpc_sw.Prelude.{
  ℕ, suc, ◌+◌, ◌^◌, ◌≤◌, ◌<◌, ◌≡◌, refl, sym, ap, ◌∙◌, drop, length-set, length-append, List, [],
  ◌∷◌, ◌++◌, arith, length, get_or, set,
}
use mathlib.Core.List.{append-nil, append_assoc}
use wrpc_sw.Prelude.Ring.{place, place_zero, place_next, ring_read, ring_put, ring_get}
use wrpc_sw.Net.Sockq.{Sockq, advance, copy_in, wrap_copy_out}

-- The ring holds the bytes l, the oldest first, and its counter of free bytes is any number.
pub record IsRing (q : Sockq) (l : List ℕ) : Type 0 where
  pub long : length q.buff ≡ q.size
  pub small : q.size < 2 ^ 16
  pub tail_in : q.tail < q.size
  pub fits : length l ≤ q.size
  pub head_at : q.head ≡ place q.size q.tail (length l)
  pub reads : ring_read 0 q.buff q.size q.tail (length l) ≡ l

advance-place :
    (q : Sockq) (k : ℕ)
    → q.size < 2 ^ 16
    → q.tail < q.size
    → k < q.size
    → advance q (place q.size q.tail k) ≡ place q.size q.tail (suc k)
unfolding advance
advance-place q k a b c = ground arith

-- Only the ring's bytes and its two ends have changed.
abbrev pub SameCounts : Sockq → Sockq → Type 0
SameCounts q q' = (q'.size ≡ q.size) × (q'.avail ≡ q.avail) × (q'.n ≡ q.n)

put_byte :
    (q : Sockq) (l : List ℕ) (b : ℕ)
    → IsRing q l
    → length l < q.size
    → IsRing (record q { buff = set q.buff q.head b; head = advance q q.head }) (l ++ (b ∷ []))
unfolding advance
put_byte q l b h m =
    let long1 = length-append l (b ∷ []) in
    let e : length (l ++ (b ∷ [])) ≡ suc (length l) = omega (arith, long1) in
    record {
      long = length-set q.buff q.head b ∙ h.long;
      small = h.small;
      tail_in = h.tail_in;
      fits = omega arith;
      head_at = rw (h.head_at, e) (advance-place q (length l) h.small h.tail_in m);
      reads =
          rw (e, h.head_at)
            (ring_put 0 q.buff q.size q.tail (length l) b h.long h.tail_in m ∙ rw h.reads refl);
    }

-- Copying out a list of bytes for which the ring has room adds them at the end.
pub wrap_copy_out_lem :
    (bs : List ℕ) (q : Sockq) (l : List ℕ)
    → IsRing q l
    → length l + length bs ≤ q.size
    → IsRing (wrap_copy_out q bs) (l ++ bs) × SameCounts q (wrap_copy_out q bs)
unfolding wrap_copy_out
wrap_copy_out_lem [] q l h m = (rw (append-nil l) h, (refl, refl, refl))
wrap_copy_out_lem (b ∷ bs) q l h m =
    let (r, c) =
      wrap_copy_out_lem bs (record q { buff = set q.buff q.head b; head = advance q q.head })
        (l ++ (b ∷ [])) (put_byte q l b h (omega arith))
        (omega (arith, length-append l (b ∷ []))) in
    (rw⁻¹ (append_assoc l (b ∷ []) bs) r, c)

get_byte :
    (q : Sockq) (b : ℕ) (l : List ℕ)
    → IsRing q (b ∷ l)
    → (get_or q.buff q.tail 0 ≡ b) × IsRing (record q { tail = advance q q.tail }) l
get_byte q b l h =
    let r = sym (ring_get 0 q.buff q.size q.tail (length l)) ∙ h.reads in
    let e : advance q q.tail ≡ place q.size q.tail 1 =
      ap (advance q) (sym (place_zero q.size q.tail h.tail_in))
      ∙ advance-place q 0 h.small h.tail_in (omega (arith, h.fits)) in
    (
      ap (λ r. get_or r 0 0) r,
      record {
        long = h.long;
        small = h.small;
        tail_in = rw e (ground (arith, h.tail_in));
        fits = omega (arith, h.fits);
        head_at = h.head_at ∙ rw e (sym (place_next q.size q.tail (length l) h.tail_in h.fits));
        reads = rw e (ap (drop 1) r);
      },
    )

-- Copying in takes the oldest bytes off.
pub copy_in_lem :
    (xs : List ℕ) (q : Sockq) (l : List ℕ)
    → IsRing q (xs ++ l)
    → let (bs, q') = copy_in (length xs) q in (bs ≡ xs) × IsRing q' l × SameCounts q q'
unfolding copy_in
copy_in_lem [] q l h = (refl, h, (refl, refl, refl))
copy_in_lem (x ∷ xs) q l h =
    let (b, h') = get_byte q x (xs ++ l) h in
    let (bs, r, c) = copy_in_lem xs (record q { tail = advance q q.tail }) l h' in
    (rw (b, bs) refl, r, c)
