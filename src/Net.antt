-- ===== src/Net.antt =====
-- The network core, lib/net.c: receive timestamps and the sockets' packet queues.
pub mod Timestamp
pub mod Sockq
pub mod Demux
pub mod Send
