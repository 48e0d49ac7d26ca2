-- ===== src/Tunnel.antt =====
-- internal/tunnel: the two ends of the tunnel above the session set. Each child has one part of it;
-- the proofs about a part stand below that part.
pub mod Datagram
pub mod Flows
pub mod Reconnect
pub mod Addresses
pub mod Targets
pub mod Slots
pub mod Streams
pub mod Listening
pub mod Pipe
pub mod Dispatch
