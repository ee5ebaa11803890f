-- ===== src/Fleet.antt =====
-- src/fleet: the watch over the machines and nodes.
pub mod Watchdog
