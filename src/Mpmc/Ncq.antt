-- ===== src/Mpmc/Ncq.antt =====
-- src/queues/mpmc/queue/ncq.rs: a circular queue of indices, each entry a word of a cycle and an
-- index. An operation runs alone, from whatever state the others have left; `none` is a panic (an
-- entry outside the buffer, a division by zero), or the end of the fuel of a loop.
pub mod Holds
pub mod Rounds
pub mod Keeps
pub mod Laws
use nolock.Prelude.{
  ℕ, zero, suc, ◌+◌, ◌/◌, ◌%◌, ◌^◌, Bool, true, false, Option, none, some, List, if◌then◌else◌,
  ◌==◌, get_elem?, set, replicate, ◌>>=◌, compare_exchange, add_usize, add_u32,
}
use nolock.Mpmc.NcqEntry

-- `capacity` is what `entries.capacity()` returns.
pub record Queue : Type 0 where
  pub entries : List ℕ
  pub capacity : ℕ
  pub head : ℕ
  pub tail : ℕ

-- The capacity that `Vec::with_capacity(n)` allocates is the library's choice.
unfoldable pub new : (ℕ → ℕ) → ℕ → Queue
new with_capacity capacity = record {
  entries = replicate capacity 0;
  capacity = with_capacity capacity;
  head = capacity;
  tail = capacity;
}

-- A division by zero panics.
unfoldable pub cycle : ℕ → ℕ → Option ℕ
cycle tail capacity = if capacity == 0 then none else some (tail / capacity % 2 ^ 32)

-- `self.tail.compare_exchange(tail, tail + 1)`, its answer unused
abbrev pub advance_tail : Queue → ℕ → Queue
advance_tail q tail = record q { tail = (compare_exchange q.tail tail (add_usize tail 1)).1 }

-- One round of the loop of `enqueue`: the tail where the index was placed, if it was, and the queue.
unfoldable pub enqueue_round : Queue → ℕ → Option (Option ℕ × Queue)
unfolding cycle
enqueue_round q i = do
  tail_cycle ← cycle q.tail q.capacity
  let j = q.tail % q.capacity
  raw ← get_elem? q.entries j
  let entry_cycle = NcqEntry.cycle raw
  if entry_cycle == tail_cycle
      then some (none, advance_tail q q.tail)
      else if add_u32 entry_cycle 1 == tail_cycle
      then (do
        now ← get_elem? q.entries j
        let (done, cell) = compare_exchange now raw (NcqEntry.value tail_cycle (i % 2 ^ 32))
        some (if done then some q.tail else none, record q { entries = set q.entries j cell }))
      else some (none, q)

unfoldable pub enqueue_loop : ℕ → Queue → ℕ → Option (ℕ × Queue)
enqueue_loop zero q i = none
enqueue_loop (suc fuel) q i = elim (enqueue_round q i) [
  | none ↦ none
  | some (placed, q') ↦ elim placed [ some tail ↦ some (tail, q') | none ↦ enqueue_loop fuel q' i ]
]

unfoldable pub enqueue : ℕ → Queue → ℕ → Option Queue
enqueue fuel q i = do (tail, q') ← enqueue_loop fuel q i; some (advance_tail q' tail)

-- One round of the loop of `dequeue`: its answer, if it has one, and the queue.
unfoldable pub dequeue_round : Queue → Option (Option (Option ℕ) × Queue)
unfolding cycle
dequeue_round q = do
  head_cycle ← cycle q.head q.capacity
  raw ← get_elem? q.entries (q.head % q.capacity)
  let entry_cycle = NcqEntry.cycle raw
  if entry_cycle == head_cycle
      then (let (done, cell) = compare_exchange q.head q.head (add_usize q.head 1) in
          some (if done then some (some (NcqEntry.index raw)) else none, record q { head = cell }))
      else if add_u32 entry_cycle 1 == head_cycle
      then some (some none, q)
      else some (none, q)

unfoldable pub dequeue : ℕ → Queue → Option (Option ℕ × Queue)
dequeue zero q = none
dequeue (suc fuel) q = elim (dequeue_round q) [
  | none ↦ none
  | some (answer, q') ↦ elim answer [ some o ↦ some (o, q') | none ↦ dequeue fuel q' ]
]
