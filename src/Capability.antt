-- ===== src/Capability.antt =====
-- Requests for the capabilities of the host: the queue of a worker and the broker of the host.
pub mod Pending
pub mod Dispatch
mod Tests
