-- ===== src/Mpmc.antt =====
-- src/queues/mpmc: queues with any number of producers and consumers.
pub mod Underlying
pub mod NcqEntry
pub mod Ncq
pub mod ScqEntry
pub mod Scq
pub mod FinalScq
pub mod Segment
pub mod Unbounded
pub mod Bounded
pub mod NcqBounded
pub mod ScqBounded
pub mod Tests
