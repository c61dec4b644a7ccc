-- ===== src/Examples/Devices.antt =====
-- The calibration, its file, and the network interface at concrete values.
use wrpc_sw.Prelude.{
  ℕ, zero, suc, ap, ◌∙◌, ◌+◌, ◌-◌, ◌%◌, ◌≤◌, ◌<◌, ◌≡◌, ◌↔◌, refl, ◌⊎◌, Bool, true, false, Option,
  none, some, List, [], ◌∷◌, ◌++◌, leb, ◌==◌, if◌then◌else◌, arith, length, take, replicate,
}
use wrpc_sw.Prelude.Int.{ℤ, pos, negsuc}
use wrpc_sw.Storage.Calibration.{
  CalParam, CalData, no_param, cal_max_params, cal_size, Sdbfs, storage_get_calibration_parameter,
  storage_remove_calibration_parameter, storage_load_calibration,
  storage_set_calibration_parameter_and_save, find_param,
}
use wrpc_sw.Storage.Calibration.Table.{IsTable}
use wrpc_sw.Storage.Calibration.Table.Removal.{storage_remove_calibration_parameter_lem}
use wrpc_sw.Storage.Calibration.File.{storage_set_calibration_parameter_and_save-load}
use wrpc_sw.Rxts.{calib_t24p, calib_t24p_init, cal_param_t24p, keeps_stored}
use wrpc_sw.Rxts.Scan.{timestamper}
use wrpc_sw.Rxts.Process.{keeps_stored_lem, calib_t24p-edge}
use wrpc_sw.Ip.Udp.Layout.{Tuple, bytes}
use wrpc_sw.Minic.{
  HwTimestamp, FifoWord, Minic, is_oob, tx_oob, tx_status, data_words, minic_rx_frame,
}
use wrpc_sw.Minic.Frames.Whole.{oob_words}
use wrpc_sw.Minic.Overrun.{minic_rx_frame-overrun}
use wrpc_sw.Net.Demux.{Socket, remove_tag}
use wrpc_sw.Net.Sockq.{Sockq}
use wrpc_sw.Net.Send.{ptpd_netif_sendto}
use wrpc_sw.Net.Send.Wire.{Arrives, frame_of}
use wrpc_sw.Net.Send.Link.{NoOob, ptpd_netif_sendto-Arrives}

-- A file of 128 bytes.
take_self : (bs : List ℕ) → take (length bs) bs ≡ bs
take_self [] = refl
take_self (b ∷ bs) = rw (take_self bs) refl

take_long : (n : ℕ) (bs : List ℕ) → length bs ≤ n → take n bs ≡ bs
take_long zero [] l = refl
take_long (suc n) [] l = refl
take_long zero (b ∷ bs) l = ground (arith, l)
take_long (suc n) (b ∷ bs) l = rw (take_long n bs (omega (arith, l))) refl

read_prefix : List ℕ → ℕ → Option (List ℕ)
read_prefix s n = if leb n (length s) then some (take n s) else none

read_prefix_self : (bs : List ℕ) → read_prefix bs (length bs) ≡ some bs
unfolding read_prefix
read_prefix_self bs = ground (arith, take_self bs)

-- What was written, up to the end of the file.
read_prefix-take :
    (bs : List ℕ) → leb (length bs) 128 ≡ true → read_prefix (take 128 bs) (length bs) ≡ some bs
read_prefix-take bs h =
    let l : length bs ≤ 128 = ground (arith, h) in
    ap (λ s. read_prefix s (length bs)) (take_long 128 bs l) ∙ read_prefix_self bs

abbrev memory : Sdbfs
memory = record {
  Store = List ℕ;
  opens = λ s. true;
  ferase = λ s. [];
  fwrite = λ s bs. (leb (length bs) 128, take 128 bs);
  fread = read_prefix;
  opens_again = λ s bs h. refl;
  reads_back = λ s bs h. read_prefix-take bs h;
}

abbrev params : List CalParam
params =
    record { id = 5; value = 50 }
    ∷ record { id = cal_param_t24p; value = 2600 }
    ∷ replicate 10 no_param

abbrev table : CalData
table = record { magic = 0; param_count = 2; checksum = 0; params = params }

table-IsTable : IsTable table
unfolding find_param
table-IsTable = record { room = refl; within = omega arith; distinct = (refl, (refl, tt)) }

storage_remove_calibration_parameter_lem_example :
    ((storage_remove_calibration_parameter 5 table ≡ none)
      × (storage_get_calibration_parameter 5 table ≡ none))
    ⊎ ((d' : CalData) × (storage_remove_calibration_parameter 5 table ≡ some d')
        × IsTable d'
        × ((j : ℕ)
            → storage_get_calibration_parameter j d'
              ≡ (if 5 == j then none else storage_get_calibration_parameter j table)))
storage_remove_calibration_parameter_lem_example =
    storage_remove_calibration_parameter_lem 5 table table-IsTable

fits_file : (bs : List ℕ) → length bs ≡ cal_size → leb (length bs) 128 ≡ true
fits_file bs e = ground (arith, e)

abbrev saved : ℤ × (CalData × List ℕ)
saved = storage_set_calibration_parameter_and_save memory 9 90 table []

storage_set_calibration_parameter_and_save-load_example :
    ((saved.0 ≡ negsuc 0)
      × (storage_get_calibration_parameter 9 table ≡ none)
      × (table.param_count ≡ cal_max_params))
    ⊎ ((saved.0 ≡ pos 0)
        × ((storage_load_calibration memory table saved.1.1).0 ≡ pos 0)
        × ((j : ℕ)
            → storage_get_calibration_parameter j
                (storage_load_calibration memory table saved.1.1).1
              ≡ (if 9 == j then some 90 else storage_get_calibration_parameter j table)))
storage_set_calibration_parameter_and_save-load_example =
    storage_set_calibration_parameter_and_save-load memory 9 90 table table [] table-IsTable
      (omega arith) (omega arith) (omega arith) refl fits_file

-- The shifter is busy in every second round.
abbrev every_second : ℕ → Bool
every_second r = r % 2 == 0

abbrev calibrated_t24p : ℕ
calibrated_t24p =
    (calib_t24p memory (timestamper 2650 every_second) calib_t24p_init table [] 2389).0

calib_t24p-edge_example :
    (v : ℕ) × (v < 8000)
    × (0 < (2650 + 8000 - v) % 8000)
    × ((2650 + 8000 - v) % 8000 ≤ 100)
    × ((calibrated_t24p ≡ v)
        ⊎ ((storage_get_calibration_parameter cal_param_t24p table ≡ some calibrated_t24p)
            × (2000 ≤ v)
            × (v ≤ calibrated_t24p + 2000)
            × (calibrated_t24p ≤ v + 2000)))
calib_t24p-edge_example =
    calib_t24p-edge memory 2650 every_second table [] 2389 (omega arith) (omega arith)

keeps_stored_lem_example :
    (keeps_stored 300 300 ≡ true) ↔ ((2000 ≤ 300) × (300 ≤ 300 + 2000) × (300 ≤ 300 + 2000))
keeps_stored_lem_example = keeps_stored_lem 300 300 (omega arith)

abbrev nic : Minic
nic = record { ver_supported = true; tx_count = 0; rx_count = 0; rx_errors = 0 }

abbrev no_stamp : HwTimestamp
no_stamp = record { valid = true; ahead = false; sec = 0; nsec = 0 }

-- A buffer of four bytes, and a payload of six.
minic_rx_frame-overrun_example :
    let r =
      minic_rx_frame 4 0 0 no_stamp nic
        (tx_status
          ∷ (data_words 7 (replicate 14 1) ++ (data_words 3 (replicate 6 9) ++ oob_words 0 0 0)))
        (replicate 14 0)
        (replicate 8 0) in
    (take 6 r.mem ≡ take 6 (replicate 6 9)) × (r.result ≡ pos 4) × (r.hwts.valid ≡ false)
minic_rx_frame-overrun_example =
    minic_rx_frame-overrun 2 0 0 no_stamp nic (replicate 14 1) (replicate 6 9) (replicate 14 0)
      (replicate 8 0) (oob_words 0 0 0) refl (omega arith) refl refl (omega arith) (omega arith)
      (omega arith) (omega arith) (refl, (refl, (refl, tt)))

abbrev ring : Sockq
ring = record { head = 0; tail = 0; avail = 0; size = 0; n = 0; buff = [] }

abbrev sock : Socket
sock = record { nif = 0; ethertype = 0x88f7; udpport = 0; queue = ring }

abbrev from_mac : Tuple 6
from_mac = (8, (0, (0x30, (1, (2, (3, tt))))))

abbrev to_mac : Tuple 6
to_mac = (1, (0x1b, (0x19, (0, (0, (0, tt))))))

-- A link that leaves all out-of-band words out.
abbrev no_oob : List FifoWord → List FifoWord
no_oob [] = []
no_oob (w ∷ ws) = let rest = no_oob ws in if is_oob w.type then rest else w ∷ rest

abbrev link : List FifoWord → List FifoWord
link ws = no_oob ws ++ oob_words 0 1 2

no_oob_lem : (ws : List FifoWord) → NoOob ws → no_oob (ws ++ tx_oob) ≡ ws
no_oob_lem [] h = refl
no_oob_lem (w ∷ ws) h = rw (h.0, no_oob_lem ws h.1) refl

-- 50 bytes on VLAN 7, with priority 5.
ptpd_netif_sendto-Arrives_example : Arrives 7 0x88f7 50 (replicate 51 9) (
    remove_tag (
      frame_of [] (
        minic_rx_frame 480 0 0 no_stamp nic
          (link
            (ptpd_netif_sendto 7 5 sock
              (bytes 6 to_mac)
              (bytes 6 from_mac)
              nic
              (replicate 51 9)
              50).1.0)
          (replicate 14 0)
          (replicate 480 0))))
ptpd_netif_sendto-Arrives_example =
    ptpd_netif_sendto-Arrives 7 5 50 0 1 2 480 0 0 no_stamp [] nic nic sock from_mac to_mac
      (replicate 51 9) (replicate 14 0) (replicate 480 0) link
      (λ ws h. ap (λ l. l ++ oob_words 0 1 2) (no_oob_lem ws h)) refl refl (omega arith)
      (omega arith) (omega arith) (λ e. absurd (omega (arith, e))) (omega arith) (omega arith)
      (omega arith) refl (omega arith) (omega arith) (omega arith) (omega arith)
