-- ===== src/Queues.antt =====
-- src/queues.rs: the errors that every queue of the crate returns.

pub data EnqueueError : Type 0 where
  full closed : EnqueueError

pub data DequeueError : Type 0 where
  empty closed : DequeueError
