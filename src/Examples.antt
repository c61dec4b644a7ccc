-- ===== src/Examples.antt =====
-- The theorems applied to concrete states.
mod Data
mod Controllers
mod Loops
mod Machines
mod Network
mod Shells
mod Packets
mod Services
mod Devices
mod Scripts
mod Sfps
