-- ===== src/Broker.antt =====
-- The brokers between a worker and the capabilities of the host: runtime/broker.
pub mod Gesture
