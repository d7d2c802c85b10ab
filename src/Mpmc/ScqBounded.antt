-- ===== src/Mpmc/ScqBounded.antt =====
-- `queue_scq` of src/queues/mpmc/queue.rs: the bounded queue on two scalable circular queues of
-- indices (src/queues/mpmc/queue/scq.rs).
use nolock.Prelude.{ℕ, ◌+◌, ◌*◌, ◌^◌, ◌<◌, ◌≤◌, ◌≡◌, true, Option, some, [], arith, ◌>>=◌}
use nolock.Mpmc.Underlying.{UnderlyingQueue}
use nolock.Mpmc.Scq
use nolock.Mpmc.Scq.Holds.{Holds}
use nolock.Mpmc.Scq.Keeps.{weaken-Holds}
use nolock.Mpmc.Scq.Laws.{new-Holds, enqueue-Holds, dequeue-cons, dequeue-nil}
use nolock.Mpmc.Bounded
use nolock.Mpmc.Bounded.{Channel}
use nolock.Mpmc.Bounded.Run.{Script, calls, replies, run, bounded_run_refines}

-- Alone, each loop is left after two rounds at most.
abbrev pub scq : UnderlyingQueue
scq = record {
  Queue = Scq.Queue;
  enqueue = Scq.enqueue 2;
  dequeue = Scq.dequeue 2;
  Holds = Holds;
  enqueue_law = λ n k l q i h room word. enqueue-Holds 0 i h room word;
  dequeue_cons = λ n k x l q h. dequeue-cons 1 h;
  dequeue_nil = λ n k q h. dequeue-nil 1 h;
  weaken = λ n k l q h. weaken-Holds h;
}

unfoldable pub queue_scq {ℓ} : {A : Type ℓ} → ℕ → Option (Channel Scq.Queue A)
queue_scq capacity = Bounded.queue scq (Scq.new capacity) (Scq.new capacity) capacity

-- A queue of `n` entries, 0 < n ≤ 2 ^ 32, answers any calls as a bounded FIFO of capacity `n` does, and no call
-- panics, reads an unwritten entry or goes on after two rounds of a loop, as long as the rounds of
-- the index queues fit the 31 bits of a cycle.
pub run-queue_scq {ℓ} :
    {A : Type ℓ} (n : ℕ) (ops : Script A true true)
    → 0 < n
    → n ≤ 2 ^ 32
    → n * 2 + (n + calls ops) < 2 ^ 31 * (n * 2)
    → (queue_scq n >>= run scq ops)
      ≡ some (replies n ops (record { items = []; receiver = true; sender = true }))
unfolding queue_scq
run-queue_scq n ops pos within budget =
    bounded_run_refines scq n ops (Scq.new n) (Scq.new n) within
      (new-Holds n (calls ops) pos within (omega arith))
      (new-Holds n (n + calls ops) pos within budget)
