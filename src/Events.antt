-- ===== src/Events.antt =====
-- The event queues and handlers of lib/event.c.
pub mod Fifo
use wrpc_sw.Prelude.{
  ℕ, zero, suc, ◌+◌, ◌-◌, ◌*◌, ◌/◌, ◌%◌, ◌^◌, ◌≤◌, ◌<◌, min, bit_and, bit_or, ◌≡◌, refl, sym, ap,
  ◌∙◌, ◌≢◌, ◌↔◌, ◌⊎◌, inl, inr, Bool, true, false, not, ◌&&◌, ◌||◌, replicate, Option, none, some,
  List, [], ◌∷◌, ◌++◌, map, arith, length, get_or, set, get_elem?, ltb, leb, ◌==◌, if◌then◌else◌,
  Bool-cases, Option-cases, dec_lt, dec_le,
}
use wrpc_sw.Prelude.Int.{
  ℤ, pos, negsuc, pos_part, neg_part, ◌+ℤ◌, ◌-ℤ◌, ◌*ℤ◌, ◌≤ℤ◌, ◌<ℤ◌, ltb_ℤ, leb_ℤ, eqb_ℤ, i32, i64,
  sar, tdiv, neg, low_bits, Fits32, i32_of_Fits32, +ℤ_parts, -ℤ_parts, eq_of_parts, parts_of_eq,
  word_laws,
}
use wrpc_sw.Softpll.Regs.{test_bit}

abbrev pub max_events_per_queue : ℕ
max_events_per_queue = 8

abbrev pub max_event_handlers : ℕ
max_event_handlers = 8

-- All fields are uint8_t.
pub record EventQueue : Type 0 where
  pub data_bytes : List ℕ
  pub head : ℕ
  pub tail : ℕ
  pub count : ℕ
  pub size : ℕ

-- A handler function is known by its address.
pub record EventHandler : Type 0 where
  pub queue : EventQueue
  pub enabled : Bool
  pub event_mask : ℕ
  pub handler : Option ℕ

pub record Events : Type 0 where
  pub handlers : List EventHandler
  pub event_handler_count : ℕ

unfoldable pub queue_put : EventQueue → ℕ → EventQueue
queue_put buf c =
    if leb buf.size buf.count
    then buf
    else (let h = (buf.head + 1) % 2 ^ 8 in
        record buf {
          data_bytes = set buf.data_bytes buf.head (c % 2 ^ 8);
          head = if leb buf.size h then 0 else h;
          count = (buf.count + 1) % 2 ^ 8;
        })

unfoldable pub queue_get : EventQueue → ℤ × EventQueue
queue_get buf =
    if buf.count == 0
    then (negsuc 0, buf)
    else (let t = (buf.tail + 1) % 2 ^ 8 in
        (
          pos (get_or buf.data_bytes buf.tail 0),
          record buf { tail = if leb buf.size t then 0 else t; count = buf.count - 1 },
        ))

unfoldable pub queue_init : EventQueue → EventQueue
queue_init buf = record buf { head = 0; tail = 0; count = 0; size = max_events_per_queue }

unfoldable pub queue_full : EventQueue → Bool
queue_full buf = buf.size == buf.count

unfoldable pub queue_purge : EventQueue → EventQueue
queue_purge buf = record buf { head = 0; tail = 0; count = 0 }

unfoldable pub modify_handler :
    List EventHandler → ℕ → (EventHandler → EventHandler) → List EventHandler
modify_handler [] i f = []
modify_handler (h ∷ hs) zero f = f h ∷ hs
modify_handler (h ∷ hs) (suc i) f = h ∷ modify_handler hs i f

-- The result is the handler's number, or -1.
unfoldable pub event_handler_register :
    Events → (mask : ℕ) (enable : Bool) (func : Option ℕ) → ℤ × Events
event_handler_register s mask enable func =
    if leb max_event_handlers s.event_handler_count then (negsuc 0, s) else (
      pos s.event_handler_count,
      record {
        handlers = modify_handler s.handlers s.event_handler_count (λ (eh : EventHandler).
            record eh {
              queue = queue_init eh.queue;
              enabled = enable;
              event_mask = mask;
              handler = func;
            });
        event_handler_count = s.event_handler_count + 1;
      },
    )

unfoldable pub event_handler_enable : Events → ℕ → Bool → Events
event_handler_enable s id enable = record s {
  handlers = modify_handler s.handlers id (λ (eh : EventHandler). record eh { enabled = enable });
}

unfoldable pub post_one : ℕ → EventHandler → EventHandler
post_one event eh =
    if not eh.enabled || not (test_bit eh.event_mask event)
    then eh
    else record eh { queue = queue_put eh.queue event }

-- The loop over the first n handlers.
unfoldable pub post_first : ℕ → List EventHandler → ℕ → List EventHandler
post_first zero hs event = hs
post_first (suc n) [] event = []
post_first (suc n) (h ∷ hs) event = post_one event h ∷ post_first n hs event

-- `board_use_events` is the board's BOARD_USE_EVENTS.
unfoldable pub event_post : (board_use_events : Bool) → Events → ℕ → Events
event_post false s event = s
event_post true s event = record s { handlers = post_first s.event_handler_count s.handlers event }

-- Polling a handler past the array, which C leaves undefined, gives 0 here.
unfoldable pub event_poll : Events → ℕ → ℤ × Events
event_poll s i = elim (get_elem? s.handlers i) [
  | none ↦ (pos 0, s)
  | some eh ↦
      if not eh.enabled || (eh.queue.count == 0)
      then (pos 0, s)
      else (let (rv, q) = queue_get eh.queue in
          (
            rv,
            record s {
              handlers = modify_handler s.handlers i (λ (h : EventHandler). record h { queue = q });
            },
          ))
]

unfoldable pub events_init : Events → Events
events_init s = record {
  handlers = map (λ (eh : EventHandler). record eh { enabled = false }) s.handlers;
  event_handler_count = 0;
}

-- The handler functions are code outside this file, which may register handlers and post events.
module _ (call : ℕ → ℤ → Events → Events) where
  -- The body of the loop of events_dispatch.
  unfoldable pub dispatch_one : Events → ℕ → Events
  dispatch_one s i = elim (get_elem? s.handlers i) [
    | none ↦ s
    | some eh ↦ if not eh.enabled || (eh.queue.count == 0) then s else elim eh.handler [
      | none ↦ s
      | some func ↦
          let (rv, q) = queue_get eh.queue in
          call func rv (record s {
            handlers = modify_handler s.handlers i (λ (h : EventHandler). record h { queue = q });
          })
    ]
  ]

  -- The loop from handler i on. A handler may register others, so that the bound is read again each
  -- time. At most max_event_handlers are registered, so that as many rounds are enough.
  unfoldable pub dispatch_from : ℕ → Events → ℕ → Events
  dispatch_from zero s i = s
  dispatch_from (suc fuel) s i =
      let rest = dispatch_from fuel (dispatch_one s i) (i + 1) in
      if ltb i s.event_handler_count then rest else s

  unfoldable pub events_dispatch : Events → Events
  events_dispatch s = dispatch_from max_event_handlers s 0

-- A listener has no handler function and takes every event: the mask is -1.
unfoldable pub event_listener_create : Events → ℤ × Events
event_listener_create s = event_handler_register s (2 ^ 32 - 1) true none
