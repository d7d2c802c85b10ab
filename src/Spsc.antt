-- ===== src/Spsc.antt =====
-- src/queues/spsc: queues with one producer and one consumer.
pub mod Node
pub mod Bounded
pub mod Nodes
pub mod Unbounded
mod Tests
