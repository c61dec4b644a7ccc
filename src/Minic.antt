-- ===== src/Minic.antt =====
-- The network interface's driver, dev/minic.c: frames read from and written to the FIFOs. A FIFO is
-- the list of its words; what a read of the empty FIFO gives ends the list. Memory is a list of bytes,
-- and a 16-bit store at a place is two bytes, the upper one first, as htons makes it. The wait for the
-- transmitter is left out, and the warnings. The period is 8000 ps, the clock 125 MHz.
pub mod Frames
pub mod Overrun
use wrpc_sw.Prelude.{
  ℕ, zero, suc, ◌+◌, ◌-◌, ◌*◌, ◌/◌, ◌%◌, ◌^◌, bit_and, bit_or, ◌&&◌, ◌||◌, Bool, true, false, not,
  Option, none, some, List, [], ◌∷◌, ◌++◌, drop, min, get_or, set, ltb, leb, ◌==◌, if◌then◌else◌,
}
use wrpc_sw.Prelude.Int.{ℤ, pos, negsuc}

abbrev pub eth_header_size : ℕ
eth_header_size = 14

-- WRF_DATA, WRF_OOB, WRF_STATUS and WRF_BYTESEL
pub data WrfType : Type 0 where
  wrf_data wrf_oob wrf_status wrf_bytesel : WrfType

pub record FifoWord : Type 0 where
  pub type : WrfType
  pub dat : ℕ

pub record HwTimestamp : Type 0 where
  pub valid : Bool
  pub ahead : Bool
  pub sec : ℕ
  pub nsec : ℕ

pub record Minic : Type 0 where
  pub ver_supported : Bool
  pub tx_count : ℕ
  pub rx_count : ℕ
  pub rx_errors : ℕ

abbrev pub is_data : WrfType → Bool
is_data wrf_data = true
is_data t = false

abbrev pub is_oob : WrfType → Bool
is_oob wrf_oob = true
is_oob t = false

abbrev pub is_status : WrfType → Bool
is_status wrf_status = true
is_status t = false

abbrev pub is_bytesel : WrfType → Bool
is_bytesel wrf_bytesel = true
is_bytesel t = false

-- `ptr16[i] = htons(word)`
abbrev pub store16 : ℕ → ℕ → List ℕ → List ℕ
store16 i word mem = set (set mem (2 * i) (word / 2 ^ 8 % 2 ^ 8)) (2 * i + 1) (word % 2 ^ 8)

-- The loop's variables, the header and the memory from the payload's buffer on.
pub record Rx : Type 0 where
  pub hdr : List ℕ
  pub mem : List ℕ
  pub hdr_size : ℕ
  pub payload_size : ℕ
  pub oob_cnt : ℕ
  pub oob_hdr : ℕ
  pub raw_ts : ℕ
  pub got_rx_error : Bool

abbrev rxoob_ts_incorrect : ℕ
rxoob_ts_incorrect = 2 ^ 11

unfoldable pub take_oob : ℕ → Rx → Rx
take_oob dat s =
    let t =
      if s.oob_cnt == 0
      then record s { oob_hdr = dat }
      else if s.oob_cnt == 1
      then record s { raw_ts = dat * 2 ^ 16 }
      else if s.oob_cnt == 2
      then record s { raw_ts = bit_or s.raw_ts dat }
      else s in
    record t { oob_cnt = (s.oob_cnt + 1) % 2 ^ 32 }

-- One word, and whether the loop ends with it.
unfoldable pub take_word : ℕ → FifoWord → Rx → Bool × Rx
unfolding take_oob
take_word buf_size w s =
    if is_data w.type && ltb s.hdr_size eth_header_size
    then (false, record s { hdr = store16 (s.hdr_size / 2) w.dat s.hdr; hdr_size = s.hdr_size + 2 })
    else if not (is_status w.type) && ltb buf_size s.payload_size
    then (false, record s { payload_size = (s.payload_size + 2) % 2 ^ 32 })
    else if is_data w.type
    then (
      false,
      record s {
        mem = store16 (s.payload_size / 2) w.dat s.mem;
        payload_size = (s.payload_size + 2) % 2 ^ 32;
      },
    )
    else if is_bytesel w.type
    then (
      false,
      record s {
        mem = store16 (s.payload_size / 2) w.dat s.mem;
        payload_size = (s.payload_size + 1) % 2 ^ 32;
      },
    )
    else if is_status w.type && ltb 0 s.hdr_size
    then (true, record s { got_rx_error = w.dat / 2 % 2 == 1 })
    else if is_oob w.type
    then (false, take_oob w.dat s)
    else (false, s)

-- What is left in the FIFO when the loop ends.
unfoldable pub take_words : ℕ → List FifoWord → Rx → List FifoWord × Rx
unfolding take_word
take_words buf_size [] s = ([], s)
take_words buf_size (w ∷ ws) s =
    let (ended, s') = take_word buf_size w s in
    elim ended [ true ↦ (ws, s') | false ↦ take_words buf_size ws s' ]

-- The timestamp, from the counters and the generator's time.
unfoldable pub rx_timestamp : Rx → ℕ → ℕ → HwTimestamp → HwTimestamp
rx_timestamp s sec counter_ppsg hwts =
    if (s.oob_cnt == 0) || ltb 3 s.oob_cnt
    then record hwts { valid = false }
    else (let counter_r = s.raw_ts % 2 ^ 28 in
        let counter_f = s.raw_ts / 2 ^ 28 % 16 in
        record {
          valid = bit_and s.oob_hdr rxoob_ts_incorrect == 0;
          ahead = (counter_r % 16 == counter_f + 1) || (counter_r % 16 + 15 == counter_f);
          sec =
              if ltb 93750000 counter_r && ltb counter_ppsg 250000000
              then ((sec + 2 ^ 64 - 1) % 2 ^ 64)
              else sec;
          nsec = counter_r * 8 % 2 ^ 32;
        })

abbrev start_rx : List ℕ → List ℕ → Rx
start_rx hdr mem = record {
  hdr = hdr;
  mem = mem;
  hdr_size = 0;
  payload_size = 0;
  oob_cnt = 0;
  oob_hdr = rxoob_ts_incorrect;
  raw_ts = 0;
  got_rx_error = false;
}

-- What minic_rx_frame returns and leaves behind.
pub record Received : Type 0 where
  pub result : ℤ
  pub nic : Minic
  pub fifo : List FifoWord
  pub hdr : List ℕ
  pub mem : List ℕ
  pub hwts : HwTimestamp

unfoldable pub finish_rx : ℕ → ℕ → ℕ → HwTimestamp → Minic → List FifoWord → Rx → Received
unfolding rx_timestamp
finish_rx buf_size sec counter_ppsg hwts nic fifo s = record {
  result = if s.got_rx_error then negsuc 0 else pos (min buf_size s.payload_size);
  nic =
      if s.got_rx_error
      then record nic { rx_errors = (nic.rx_errors + 1) % 2 ^ 32 }
      else record nic { rx_count = (nic.rx_count + 1) % 2 ^ 32 };
  fifo = fifo;
  hdr = s.hdr;
  mem = s.mem;
  hwts = rx_timestamp s sec counter_ppsg hwts;
}

-- `sec` and `counter_ppsg` are what shw_pps_gen_get_time gives.
unfoldable pub minic_rx_frame :
    ℕ → ℕ → ℕ → HwTimestamp → Minic → List FifoWord → List ℕ → List ℕ → Received
unfolding take_words finish_rx
minic_rx_frame buf_size sec counter_ppsg hwts nic [] hdr mem = record {
  result = pos 0;
  nic = nic;
  fifo = [];
  hdr = hdr;
  mem = mem;
  hwts = hwts;
}
minic_rx_frame buf_size sec counter_ppsg hwts nic (w ∷ ws) hdr mem =
    if not nic.ver_supported
    then record { result = pos 0; nic = nic; fifo = w ∷ ws; hdr = hdr; mem = mem; hwts = hwts }
    else (let (rest, s) = take_words buf_size (w ∷ ws) (start_rx hdr mem) in
        finish_rx buf_size sec counter_ppsg hwts nic rest s)

-- n 16-bit words from memory.
unfoldable pub data_words : ℕ → List ℕ → List FifoWord
data_words zero mem = []
data_words (suc n) mem =
    record { type = wrf_data; dat = get_or mem 0 0 * 2 ^ 8 + get_or mem 1 0 }
    ∷ data_words n (drop 2 mem)

abbrev pub header_size : List ℕ → ℕ
header_size hdr = if (get_or hdr 12 0 == 0x81) && (get_or hdr 13 0 == 0) then 18 else 14

-- What is sent at least, with the header.
abbrev pub padded : ℕ → ℕ → ℕ
padded hsize size = if ltb (size + hsize) 60 then (60 - hsize) else size

abbrev pub tx_status : FifoWord
tx_status = record { type = wrf_status; dat = 0 }

abbrev pub tx_oob : List FifoWord
tx_oob = record { type = wrf_oob; dat = 0x1000 } ∷ record { type = wrf_oob; dat = 0 } ∷ []

-- The payload's words, the last of which may be one byte.
unfoldable pub payload_words : ℕ → List ℕ → List FifoWord
unfolding data_words
payload_words size mem =
    data_words (size / 2) mem
    ++ (if size % 2 == 0
        then []
        else record {
          type = wrf_bytesel;
          dat = get_or mem (2 * (size / 2)) 0 * 2 ^ 8 + get_or mem (2 * (size / 2) + 1) 0;
        }
          ∷ [])

-- The words that minic_tx_frame writes; with `stamped` it asks for a timestamp.
unfoldable pub tx_words : List ℕ → List ℕ → ℕ → Bool → List FifoWord
unfolding payload_words
tx_words hdr payload size stamped =
    tx_status ∷ data_words (header_size hdr / 2) hdr
    ++ (payload_words (padded (header_size hdr) size) payload ++ (if stamped then tx_oob else []))

-- The timestamp of what was sent, from TSR0 (none if none came in time) and TSR1.
unfoldable pub tx_timestamp : Option ℕ → ℕ → ℕ → ℕ → HwTimestamp
tx_timestamp tsr0 tsr1 sec nsec =
    let counter_r = tsr1 % 2 ^ 28 in
    record {
      valid = elim tsr0 [ none ↦ false | some r ↦ r % 2 == 1 ];
      ahead = false;
      sec =
          if ltb 93750000 counter_r && ltb nsec 250000000
          then ((sec + 2 ^ 64 - 1) % 2 ^ 64)
          else sec;
      nsec = counter_r * 8 % 2 ^ 32;
    }

-- The result, the words written, and the driver afterwards.
unfoldable pub minic_tx_frame : Minic → List ℕ → List ℕ → ℕ → Bool → ℕ × (List FifoWord × Minic)
unfolding tx_words
minic_tx_frame nic hdr payload size stamped = if not nic.ver_supported then (0, ([], nic)) else (
  padded (header_size hdr) size,
  (
    tx_words hdr payload size stamped,
    if stamped then record nic { tx_count = (nic.tx_count + 1) % 2 ^ 32 } else nic,
  ),
)
