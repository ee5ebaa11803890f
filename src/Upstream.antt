-- ===== src/Upstream.antt =====
-- src/upstream: the connection to the event streams of the hosts.
pub mod Frames
pub mod Mux
mod Tests
