-- ===== src/Mpmc/Segment/Tests.antt =====
-- The test `enqueue_finalize` of src/queues/mpmc/unbounded/queue.rs, for one entry.
use nolock.Prelude.{ℕ, ◌≡◌, refl, some, Option, ok, err, ◌>>=◌, Result}
use nolock.Queues.{EnqueueError, full, DequeueError}
use nolock.Mpmc.ScqEntry
use nolock.Mpmc.Scq
use nolock.Mpmc.FinalScq
use nolock.Mpmc.FinalScq.{finalize}
use nolock.Mpmc.Segment.{new_queue, fill, try_enqueue, dequeue}

-- The answers to two sends, a receive and a send.
abbrev Answers : Type 0
Answers =
    Result (Unit {0}) (EnqueueError × ℕ)
    × Result (Unit {0}) (EnqueueError × ℕ)
    × Result ℕ DequeueError
    × Result (Unit {0}) (EnqueueError × ℕ)

abbrev answers : Option Answers
answers = do
  q ← new_queue 2 1
  (a, q) ← try_enqueue 2 q 5
  (b, q) ← try_enqueue 2 q 6
  (c, q) ← dequeue 2 q
  (d, q) ← try_enqueue 2 q 7
  some (a, b, c, d)

-- A send fills the queue; the next one finalises it, and no later one succeeds, although the entry is free.
finalized : answers ≡ some (ok tt, err (full, 6), ok 5, err (full, 7))
unfolding new_queue fill try_enqueue dequeue finalize FinalScq.enqueue Scq.new Scq.cycle
    Scq.enqueue_entry Scq.enqueue_pass ScqEntry.cycle ScqEntry.new ScqEntry.index ScqEntry.is_safe
    Scq.raise Scq.dequeue Scq.dequeue_loop Scq.dequeue_entry Scq.dequeue_pass Scq.missed Scq.catchup
finalized = refl
