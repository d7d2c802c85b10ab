-- ===== src/Mpmc/Ncq/Holds.antt =====
-- Which indices the circular queue of src/queues/mpmc/queue/ncq.rs holds, in which order.
use nolock.Prelude.{ℕ, ◌+◌, ◌/◌, ◌%◌, ◌^◌, ◌<◌, ◌≤◌, ◌≡◌, ◌⊎◌, some, List, length, get_elem?}
use nolock.Mpmc.NcqEntry
use nolock.Mpmc.Ncq.{Queue}

-- `q`, of `n` entries, holds the indices `l`, and `k` more operations keep its counters below
-- 2 ^ 64. Position `p` of the queue is in the slot `p % n` in the round `p / n`. The tail may stand
-- one short of the last item, where a thread has placed its index and not yet moved the tail.
pub record Holds (n k : ℕ) (l : List ℕ) (q : Queue) : Type 0 where
  pub pos : 0 < n
  pub size : length q.entries ≡ n
  pub full_size : q.capacity ≡ n
  pub fits : length l ≤ n
  pub words : (i x : ℕ) → get_elem? l i ≡ some x → x < 2 ^ 32
  pub written : (q.tail ≡ q.head + length l) ⊎ (q.tail + 1 ≡ q.head + length l)
  pub budget : q.head + length l + k < 2 ^ 64
  pub items :
      (i x : ℕ)
      → get_elem? l i ≡ some x
      → get_elem? q.entries ((q.head + i) % n) ≡ some (NcqEntry.value ((q.head + i) / n % 2 ^ 32) x)
  pub free :
      (i : ℕ)
      → length l ≤ i
      → i < n
      → (e : ℕ) × (get_elem? q.entries ((q.head + i) % n) ≡ some e)
        × ((NcqEntry.cycle e + 1) % 2 ^ 32 ≡ (q.head + i) / n % 2 ^ 32)
