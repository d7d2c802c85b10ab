-- ===== src/Mpmc/Scq/Holds.antt =====
-- Which indices the circular queue of src/queues/mpmc/queue/scq.rs holds, in which order.
use nolock.Prelude.{
  ℕ, ◌+◌, ◌*◌, ◌/◌, ◌%◌, ◌^◌, ◌<◌, ◌≤◌, ◌≡◌, ◌⊎◌, true, some, List, length, get_elem?,
}
use nolock.Mpmc.ScqEntry
use nolock.Mpmc.Scq.{Queue}

-- `q`, for `n` indices in twice as many entries, holds the indices `l`, and `k` more operations keep
-- its counters within the 31 bits of a cycle. Position `p` of the queue is in the slot `p % (n * 2)`
-- in the round `p / (n * 2)`. After a dequeue that found nothing the head stands one beyond the tail,
-- and the entry between them is of that round and empty.
pub record Holds (n k : ℕ) (l : List ℕ) (q : Queue) : Type 0 where
  pub pos : 0 < n
  pub small : n ≤ 2 ^ 32
  pub for_size : q.size ≡ n
  pub invalid : q.invalid_index < 2 ^ 32
  pub full_size : length q.entries ≡ n * 2
  pub fits : length l ≤ n
  pub words : (i x : ℕ) → get_elem? l i ≡ some x → x < 2 ^ 32
  pub budget : q.head + length l + k < 2 ^ 31 * (n * 2)
  pub live : 0 < length l → q.threshold < 2 ^ 63
  pub ceiling : (q.threshold < n * 3) ⊎ (2 ^ 63 ≤ q.threshold)
  pub written :
      (q.tail ≡ q.head + length l)
      ⊎ ((length l ≡ 0)
          × (q.head ≡ q.tail + 1)
          × (get_elem? q.entries (q.tail % (n * 2))
              ≡ some (ScqEntry.new true (q.tail / (n * 2)) q.invalid_index)))
  pub items :
      (i x : ℕ)
      → get_elem? l i ≡ some x
      → get_elem? q.entries ((q.head + i) % (n * 2))
        ≡ some (ScqEntry.new true ((q.head + i) / (n * 2)) x)
  pub free :
      (i : ℕ)
      → length l ≤ i
      → i < n * 2
      → (c : ℕ) × (get_elem? q.entries ((q.head + i) % (n * 2))
          ≡ some (ScqEntry.new true c q.invalid_index))
        × (c < (q.head + i) / (n * 2))
