-- ===== src/Ip.antt =====
-- The IP services of lib/ipv4.c, lib/udp.c, lib/arp.c, lib/icmp.c and lib/bootp.c. A packet is the list
-- of the bytes of its buffer.
pub mod Bytes
pub mod Checksum
pub mod Node
pub mod Udp
pub mod Arp
pub mod Icmp
pub mod Bootp
pub mod Poll
