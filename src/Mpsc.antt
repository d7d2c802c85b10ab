-- ===== src/Mpsc.antt =====
-- src/queues/mpsc: queues with any number of producers and one consumer.
pub mod Node
pub mod BufferList
pub mod Jiffy
mod Tests
