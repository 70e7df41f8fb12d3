-- ===== src/Examples.antt =====
-- Tests: the theorems of the other modules at concrete inputs.
mod Calls
mod Packets
mod Voice
mod Legs
mod Clients
mod Streams
mod Wires
mod Sessions
mod Lives
mod Media
