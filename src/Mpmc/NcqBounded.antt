-- ===== src/Mpmc/NcqBounded.antt =====
-- `queue_ncq` of src/queues/mpmc/queue.rs: the bounded queue on two circular queues of indices
-- (src/queues/mpmc/queue/ncq.rs).
use nolock.Prelude.{ℕ, suc, ◌+◌, ◌^◌, ◌<◌, ◌≤◌, ◌≡◌, true, Option, some, List, [], arith, ◌>>=◌}
use nolock.Mpmc.Underlying.{UnderlyingQueue}
use nolock.Mpmc.Ncq
use nolock.Mpmc.Ncq.Holds.{Holds}
use nolock.Mpmc.Ncq.Laws.{new-Holds, enqueue-Holds, dequeue-cons, dequeue-nil}
use nolock.Mpmc.Bounded
use nolock.Mpmc.Bounded.{Channel}
use nolock.Mpmc.Bounded.Run.{Script, calls, replies, run, bounded_run_refines}

pub weaken : {n k : ℕ} {l : List ℕ} {q : Ncq.Queue} → Holds n (suc k) l q → Holds n k l q
weaken h = record {
  pos = h.pos;
  size = h.size;
  full_size = h.full_size;
  fits = h.fits;
  words = h.words;
  written = h.written;
  budget = omega (arith, h.budget);
  items = h.items;
  free = h.free;
}

-- Alone, each loop is left after two rounds at most.
abbrev pub ncq : UnderlyingQueue
ncq = record {
  Queue = Ncq.Queue;
  enqueue = Ncq.enqueue 2;
  dequeue = Ncq.dequeue 2;
  Holds = Holds;
  enqueue_law = λ n k l q i h room small. enqueue-Holds 0 i h room small;
  dequeue_cons = λ n k x l q h. dequeue-cons 1 h;
  dequeue_nil = λ n k q h. (q, dequeue-nil 1 h, weaken h);
  weaken = λ n k l q h. weaken h;
}

unfoldable pub queue_ncq {ℓ} : {A : Type ℓ} → (ℕ → ℕ) → ℕ → Option (Channel Ncq.Queue A)
queue_ncq with_capacity capacity =
    Bounded.queue ncq (Ncq.new with_capacity capacity) (Ncq.new with_capacity capacity) capacity

-- Where `Vec::with_capacity` allocates what it is asked for, a queue of `n` entries, 0 < n ≤ 2 ^ 32, answers any
-- calls as a bounded FIFO of capacity `n` does, and no call panics, reads an unwritten entry or
-- goes on after two rounds of a loop. The calls are so few that the
-- counters stay below 2 ^ 64.
pub run-queue_ncq {ℓ} :
    {A : Type ℓ} (with_capacity : ℕ → ℕ) (n : ℕ) (ops : Script A true true)
    → with_capacity n ≡ n
    → 0 < n
    → n ≤ 2 ^ 32
    → n + (n + calls ops) < 2 ^ 64
    → (queue_ncq with_capacity n >>= run ncq ops)
      ≡ some (replies n ops (record { items = []; receiver = true; sender = true }))
unfolding queue_ncq
run-queue_ncq with_capacity n ops exact pos within budget =
    bounded_run_refines ncq n ops (Ncq.new with_capacity n) (Ncq.new with_capacity n) within
      (new-Holds with_capacity n (calls ops) exact pos (omega arith))
      (new-Holds with_capacity n (n + calls ops) exact pos budget)
