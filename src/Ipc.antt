-- ===== src/Ipc.antt =====
-- The messages between the host and a worker: runtime/ipc.
pub mod Scanner
pub mod Frame
pub mod Json
pub mod Payload
pub mod Protocol
pub mod Session
mod Tests
