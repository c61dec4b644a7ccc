-- ===== src/Net/Demux.antt =====
-- The sockets of lib/net.c and the choice of one for a received frame, in netif_poll. An ethertype is
-- given by its value, not by its bytes in network order. A frame with a VLAN tag has four bytes of
-- payload at least, as any Ethernet frame has.
pub mod Choice
use wrpc_sw.Prelude.{
  ℕ, zero, suc, ◌+◌, ◌-◌, ◌*◌, ◌/◌, ◌%◌, ◌^◌, Bool, true, false, not, ◌&&◌, ◌||◌, Option, none,
  some, List, [], ◌∷◌, ◌++◌, take, drop, get_or, get_elem?, set, ◌==◌, if◌then◌else◌,
}
use wrpc_sw.Net.Sockq.{Sockq, Packet, reset_queue, store_packet}

-- wrpc_socket: the device, the address it is bound to, and the queue.
pub record Socket : Type 0 where
  pub nif : ℕ
  pub ethertype : ℕ
  pub udpport : ℕ
  pub queue : Sockq

-- What minic_rx_frame gives: the addresses, the ethertype, the buffer, the length and the timestamp.
pub record Frame : Type 0 where
  pub addresses : List ℕ
  pub ethtype : ℕ
  pub buffer : List ℕ
  pub recvd : ℕ
  pub hwts : List ℕ

abbrev pub word_at : ℕ → List ℕ → ℕ
word_at i buf = get_or buf i 0 * 2 ^ 8 + get_or buf (i + 1) 0

-- The tag, and the frame without it.
abbrev pub remove_tag : Frame → ℕ × Frame
remove_tag f =
    if f.ethtype == 0x8100
    then (
      word_at 0 f.buffer,
      record f { ethtype = word_at 2 f.buffer; buffer = drop 4 f.buffer; recvd = f.recvd - 4 },
    )
    else (0, f)

-- The UDP port that the payload is for, 0 if it is not UDP over IPv4.
abbrev pub dest_port : List ℕ → ℕ
dest_port payload =
    if (get_or payload 0 0 == 0x45) && (get_or payload 9 0 == 17) then word_at 22 payload else 0

-- The loop over the sockets from slot i on: the last raw socket and the last UDP socket that match.
unfoldable pub match_sockets :
    (nif ethtype port i : ℕ) → Option ℕ → Option ℕ → List (Option Socket) → Option ℕ × Option ℕ
match_sockets nif ethtype port i raws udps [] = (raws, udps)
match_sockets nif ethtype port i raws udps (none ∷ socks) =
    match_sockets nif ethtype port (suc i) raws udps socks
match_sockets nif ethtype port i raws udps (some s ∷ socks) =
    let here = (s.nif == nif) && (ethtype == s.ethertype) in
    match_sockets nif ethtype port (suc i)
      (if here && ((port == 0) && (s.udpport == 0)) then some i else raws)
      (if here && (not (port == 0) && (s.udpport == port)) then some i else udps) socks

abbrev pub or_else : Option ℕ → Option ℕ → Option ℕ
or_else none b = b
or_else (some a) b = some a

unfoldable pub choose_socket : (nif ethtype port : ℕ) → List (Option Socket) → Option ℕ
choose_socket nif ethtype port socks =
    let (raws, udps) = match_sockets nif ethtype port 0 none none socks in or_else udps raws

abbrev pub frame_packet : Frame → Packet
frame_packet f = record {
  hwts = f.hwts;
  hdr = f.addresses ++ (f.ethtype / 2 ^ 8 % 2 ^ 8 ∷ f.ethtype % 2 ^ 8 ∷ []);
  payload = take f.recvd f.buffer;
}

-- The packet goes to the queue of socket i, if there is room.
unfoldable pub deliver : Packet → ℕ → List (Option Socket) → List (Option Socket)
deliver p zero (some s ∷ socks) = elim (store_packet s.queue p) [
  | none ↦ some s ∷ socks
  | some queue ↦ some (record s { queue = queue }) ∷ socks
]
deliver p (suc i) (s ∷ socks) = s ∷ deliver p i socks
deliver p i socks = socks

-- netif_poll with what was received; 0 if nothing was, or if it is of another VLAN.
unfoldable pub netif_poll : ℕ → ℕ → Option Frame → List (Option Socket) → ℕ × List (Option Socket)
netif_poll vlan nif none socks = (0, socks)
netif_poll vlan nif (some f) socks =
    if f.recvd == 0
    then (0, socks)
    else (let (tag, g) = remove_tag f in
        if not (tag % 2 ^ 12 == vlan)
        then (0, socks)
        else elim (choose_socket nif g.ethtype (dest_port g.buffer) socks) [
          | none ↦ (1, socks)
          | some i ↦ (1, deliver (frame_packet g) i socks)
        ])

-- The first free slot gets the socket; none if there is none.
unfoldable pub create_socket : Socket → List (Option Socket) → Option (List (Option Socket))
create_socket s [] = none
create_socket s (none ∷ socks) = some (some s ∷ socks)
create_socket s (some t ∷ socks) = elim (create_socket s socks) [
  | none ↦ none
  | some rest ↦ some (some t ∷ rest)
]

abbrev pub ethertype_ip : ℕ
ethertype_ip = 0x0800

-- A UDP socket is bound to IPv4 and its port, a raw one to the ethertype of the address given.
abbrev pub bind : Bool → ℕ → ℕ → ℕ → ℕ → Sockq → Socket
bind is_udp ethertype udpport nif len queue = record {
  nif = nif;
  ethertype = if is_udp then ethertype_ip else ethertype;
  udpport = if is_udp then udpport else 0;
  queue = reset_queue len queue;
}
