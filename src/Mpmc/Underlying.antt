-- ===== src/Mpmc/Underlying.antt =====
-- `UnderlyingQueue` of src/queues/mpmc/queue.rs: the queues of indices that the bounded queue is made
-- of, with what the bounded queue relies on. `Holds n k l q`: the queue `q`, for `n` indices, holds
-- `l`, oldest first, and `k` more calls stay within the range of its counters.
use nolock.Prelude.{ℕ, suc, ◌^◌, ◌<◌, ◌≡◌, Option, none, some, List, [], ◌∷◌, ◌++◌, length}

pub record UnderlyingQueue : Type 1 where
  pub Queue : Type 0
  pub enqueue : Queue → ℕ → Option Queue
  pub dequeue : Queue → Option (Option ℕ × Queue)
  pub Holds : ℕ → ℕ → List ℕ → Queue → Type 0
  pub enqueue_law :
      (n k : ℕ) (l : List ℕ) (q : Queue) (i : ℕ)
      → Holds n (suc k) l q
      → length l < n
      → i < 2 ^ 32
      → (q' : Queue) × (enqueue q i ≡ some q') × Holds n k (l ++ (i ∷ [])) q'
  pub dequeue_cons :
      (n k x : ℕ) (l : List ℕ) (q : Queue)
      → Holds n (suc k) (x ∷ l) q
      → (q' : Queue) × (dequeue q ≡ some (some x, q')) × Holds n k l q'
  pub dequeue_nil :
      (n k : ℕ) (q : Queue)
      → Holds n (suc k) [] q
      → (q' : Queue) × (dequeue q ≡ some (none, q')) × Holds n k [] q'
  pub weaken : (n k : ℕ) (l : List ℕ) (q : Queue) → Holds n (suc k) l q → Holds n k l q
