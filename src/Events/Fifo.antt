-- ===== src/Events/Fifo.antt =====
-- The event queue of lib/event.c as a queue of at most 8 events.
use wrpc_sw.Prelude.{
  ℕ, suc, ◌+◌, ◌%◌, ◌^◌, ◌≤◌, ◌<◌, ◌≡◌, sym, ap, ◌∙◌, false, drop, length-set, length-append, List,
  [], ◌∷◌, ◌++◌, arith, length, get_or, leb, ◌==◌, if◌then◌else◌,
}
use wrpc_sw.Prelude.Int.{pos, negsuc}
use wrpc_sw.Prelude.{ltb, Bool-cases, inl, inr}
use wrpc_sw.Prelude.Ring.{place, place_next, ring_read, ring_put, ring_get}
use wrpc_sw.Events.{EventQueue, queue_put, queue_get}

-- The queue holds the events l, the oldest first.
pub record HasEvents (q : EventQueue) (l : List ℕ) : Type 0 where
  pub long : length q.data_bytes ≡ 8
  pub sized : q.size ≡ 8
  pub tail_in : q.tail < 8
  pub counted : q.count ≡ length l
  pub fits : length l ≤ 8
  pub head_at : q.head ≡ place 8 q.tail (length l)
  pub reads : ring_read 0 q.data_bytes 8 q.tail (length l) ≡ l

put_branches :
    (q : EventQueue) (l : List ℕ) (c : ℕ)
    → HasEvents q l
    → (length l < 8 → HasEvents (queue_put q c) (l ++ (c % 2 ^ 8 ∷ [])))
      × (8 ≤ length l → queue_put q c ≡ q)
unfolding queue_put
put_branches q l c h = (
  λ m.
      let e : length (l ++ (c % 2 ^ 8 ∷ [])) ≡ suc (length l) =
        omega (arith, length-append l (c % 2 ^ 8 ∷ [])) in
      let room : leb q.size q.count ≡ false = ground (arith, h.sized, h.counted) in
      rw room (record {
        long = length-set q.data_bytes q.head (c % 2 ^ 8) ∙ h.long;
        sized = h.sized;
        tail_in = h.tail_in;
        counted = omega (arith, e, h.counted);
        fits = omega (arith, e);
        head_at = ground (arith, e, h.sized, h.head_at, h.tail_in);
        reads =
            rw (e, h.head_at)
              (ring_put 0 q.data_bytes 8 q.tail (length l) (c % 2 ^ 8) h.long h.tail_in m
                ∙ ap (λ l. l ++ (c % 2 ^ 8 ∷ [])) h.reads);
      }),
  λ m. ground (arith, h.sized, h.counted),
)

-- Putting an event adds its low byte behind the others when there are fewer than 8, and otherwise
-- keeps what was there.
pub queue_put_lem :
    (q : EventQueue) (l : List ℕ) (c : ℕ)
    → HasEvents q l
    → HasEvents (queue_put q c) (if ltb (length l) 8 then l ++ (c % 2 ^ 8 ∷ []) else l)
queue_put_lem q l c h = elim (Bool-cases (ltb (length l) 8)) [
  | inl e ↦ rw e ((put_branches q l c h).0 (ground arith))
  | inr e ↦ rw (e, (put_branches q l c h).1 (ground arith)) h
]

get_branches :
    (q : EventQueue)
    → (HasEvents q [] → queue_get q ≡ (negsuc 0, q))
      × ((c : ℕ) (l : List ℕ)
          → HasEvents q (c ∷ l)
          → ((queue_get q).0 ≡ pos c) × HasEvents (queue_get q).1 l)
unfolding queue_get
get_branches q = (
  λ h. ground (arith, h.counted),
  λ c l h.
      let some_left : (q.count == 0) ≡ false = ground (arith, h.counted) in
      let r = sym (ring_get 0 q.data_bytes 8 q.tail (length l)) ∙ h.reads in
      let e : (if leb q.size ((q.tail + 1) % 2 ^ 8) then 0 else ((q.tail + 1) % 2 ^ 8))
          ≡ place 8 q.tail 1 =
        ground (arith, h.sized, h.tail_in) in
      rw some_left (
        ap pos (ap (λ r. get_or r 0 0) r),
        record {
          long = h.long;
          sized = h.sized;
          tail_in = rw e (ground (arith, h.tail_in));
          counted = omega (arith, h.counted);
          fits = omega (arith, h.fits);
          head_at = h.head_at ∙ rw e (sym (place_next 8 q.tail (length l) h.tail_in h.fits));
          reads = rw e (ap (drop 1) r);
        },
      ),
)

-- What queue_get does to a queue of these events.
abbrev pub Gets : EventQueue → List ℕ → Type 0
Gets q [] = queue_get q ≡ (negsuc 0, q)
Gets q (c ∷ l) = ((queue_get q).0 ≡ pos c) × HasEvents (queue_get q).1 l

-- Getting an event takes the oldest one off, and yields -1 and changes nothing when there is none.
pub queue_get_lem : (q : EventQueue) (l : List ℕ) → HasEvents q l → Gets q l
queue_get_lem q [] h = (get_branches q).0 h
queue_get_lem q (c ∷ l) h = (get_branches q).1 c l h
