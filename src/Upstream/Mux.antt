-- ===== src/Upstream/Mux.antt =====
-- src/upstream/mux.ts: the connections to the event streams, one for each endpoint, with their
-- subscriptions, their reconnects and the frames that they hand out. Connections, sets of listeners
-- and sockets are objects that several parties share, so each is a number into a store; a listener is
-- the number of its function.
pub mod State
pub mod Wire
pub mod Sockets
pub mod Subscriptions
pub mod Steps
pub mod Attached
pub mod Listening
pub mod Runs
pub mod Held
pub mod Delivery
pub mod Approvals
