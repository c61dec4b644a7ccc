-- ===== src/Examples/Network.antt =====
-- The network queues, the timestamps and the event queue at concrete values.
use wrpc_sw.Prelude.{◌<◌, ◌≡◌, refl, ◌⊎◌, true, false, none, some, [], ◌∷◌, ◌++◌, arith, replicate}
use wrpc_sw.Prelude.Int.{pos, ◌≤ℤ◌, ◌<ℤ◌}
use wrpc_sw.Prelude.Ring.{ring_read}
use wrpc_sw.Net.Timestamp.{WrTimestamp, carry_second, giga, ptpd_netif_linearize_rx_timestamp}
use wrpc_sw.Net.Timestamp.Phase.{
  distance, chosen_nsec, linearize_rx_timestamp_lem, linearize_rx_timestamp-bounds,
}
use wrpc_sw.Net.Sockq.{Sockq, Packet, wrap_copy_in, store_packet, take_packet}
use wrpc_sw.Net.Sockq.Fifo.{IsRing}
use wrpc_sw.Net.Sockq.Packets.{HasPackets, Stores, encode, store_packet_lem, take_packet_lem}
use wrpc_sw.Net.Sockq.Truncation.{wrap_copy_in-overrun}
use wrpc_sw.Net.Demux.{ethertype_ip, bind, choose_socket}
use wrpc_sw.Net.Demux.Choice.{last_bound, choose_socket_lem}

abbrev stamp : WrTimestamp
stamp = record {
  sec = pos 100;
  nsec = pos 999999992;
  phase = pos 0;
  raw_phase = pos 0;
  raw_nsec = pos 999999992;
  raw_ahead = pos 0;
  correct = true;
}

linearize_rx_timestamp_lem_example :
    ptpd_netif_linearize_rx_timestamp stamp (pos 3000) false (pos 2500) (pos 8000)
    ≡ carry_second (record stamp {
      raw_phase = pos 3000;
      nsec = chosen_nsec false 999999992 (distance 3000 2500);
      phase = pos (distance 3000 2500);
    })
linearize_rx_timestamp_lem_example =
    linearize_rx_timestamp_lem stamp 999999992 3000 2500 false refl (omega arith) (omega arith)
      (omega arith)

linearize_rx_timestamp-bounds_example :
    let r = ptpd_netif_linearize_rx_timestamp stamp (pos 3000) false (pos 2500) (pos 8000) in
    (pos 0 ≤ℤ r.phase)
    × (r.phase <ℤ pos 8000)
    × (r.nsec <ℤ giga)
    × ((pos 0 ≤ℤ r.nsec) ⊎ ((false ≡ true) × (999999992 < 8)))
linearize_rx_timestamp-bounds_example =
    linearize_rx_timestamp-bounds stamp 999999992 3000 2500 false refl (omega arith) (omega arith)
      (omega arith)

-- A ring of 20 bytes whose tail is near its end, with the packet `first` in it.
abbrev first : Packet
first = record { hwts = 1 ∷ 2 ∷ []; hdr = 3 ∷ []; payload = 4 ∷ [] }

abbrev ring : Sockq
ring = record {
  head = 4;
  tail = 18;
  avail = 14;
  size = 20;
  n = 1;
  buff = 1 ∷ 2 ∷ 3 ∷ 4 ∷ replicate 14 0 ++ (1 ∷ 0 ∷ []);
}

ring-IsRing : IsRing ring (encode first)
unfolding ring_read
ring-IsRing = record {
  long = refl;
  small = omega arith;
  tail_in = omega arith;
  fits = omega arith;
  head_at = refl;
  reads = refl;
}

ring-HasPackets : HasPackets ring (first ∷ [])
ring-HasPackets = record { queue = record { ring = ring-IsRing; counted = refl }; number = refl }

abbrev second : Packet
second = record { hwts = 5 ∷ 5 ∷ []; hdr = 6 ∷ []; payload = 7 ∷ 8 ∷ [] }

store_packet_lem_example : Stores ring (first ∷ []) second (store_packet ring second)
store_packet_lem_example = store_packet_lem ring (first ∷ []) second ring-HasPackets

take_packet_lem_example :
    (q' : Sockq) × (take_packet 2 1 ring 64 ≡ some (first, q')) × HasPackets q' []
take_packet_lem_example =
    take_packet_lem ring first [] 64 ring-HasPackets (omega arith) (omega arith)

wrap_copy_in-overrun_example : (wrap_copy_in (record ring { tail = 10 }) 10 4).1.tail ≡ 20
wrap_copy_in-overrun_example =
    wrap_copy_in-overrun (record ring { tail = 10 }) 10 4 (omega arith) refl (omega arith)
      (omega arith)

choose_socket_lem_example :
    choose_socket 0 ethertype_ip 37
      (none ∷ some (bind true 0 37 0 96 ring) ∷ some (bind false ethertype_ip 0 0 128 ring) ∷ [])
    ≡ last_bound 0 ethertype_ip 37 0 none
        (none ∷ some (bind true 0 37 0 96 ring) ∷ some (bind false ethertype_ip 0 0 128 ring) ∷ [])
choose_socket_lem_example =
    choose_socket_lem 0 ethertype_ip 37
      (none ∷ some (bind true 0 37 0 96 ring) ∷ some (bind false ethertype_ip 0 0 128 ring) ∷ [])
