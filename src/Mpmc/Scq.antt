-- ===== src/Mpmc/Scq.antt =====
-- src/queues/mpmc/queue/scq.rs: the scalable circular queue of indices, twice as many entries as it
-- holds indices. An operation runs alone, from whatever state the others have left; `none` is a panic
-- (an entry outside the buffer, a division by zero), or the end of the fuel of a loop. `threshold` is
-- the two's complement word of the source's isize.
pub mod Holds
pub mod Passes
pub mod Keeps
pub mod Laws
use nolock.Prelude.{
  ℕ, zero, suc, ◌+◌, ◌-◌, ◌*◌, ◌/◌, ◌%◌, ◌^◌, Bool, true, false, ◌&&◌, ◌||◌, Option, none, some,
  List, if◌then◌else◌, ◌==◌, ltb, leb, get_elem?, set, replicate, ◌>>=◌, compare_exchange,
  add_usize,
}
use nolock.Mpmc.ScqEntry

pub record Queue : Type 0 where
  pub size : ℕ
  pub invalid_index : ℕ
  pub entries : List ℕ
  pub head : ℕ
  pub tail : ℕ
  pub threshold : ℕ

unfoldable pub new : ℕ → Queue
new capacity =
    let invalid_index = (2 * capacity - 1) % 2 ^ 32 in
    record {
      size = capacity;
      invalid_index = invalid_index;
      entries = replicate (2 * capacity) (ScqEntry.new true 0 invalid_index);
      head = capacity * 2;
      tail = capacity * 2;
      threshold = 2 ^ 64 - 1;
    }

-- A division by zero panics.
unfoldable pub cycle : ℕ → ℕ → Option ℕ
cycle raw capacity = if capacity == 0 then none else some (raw / (capacity * 2) % 2 ^ 32)

-- What a pass of an inner loop does: it returns from the operation, leaves the inner loop, or is
-- repeated.
pub data Pass (B : Type 0) : Type 0 where
  returned : B → Pass B
  left : Pass B
  repeated : Pass B

unfoldable pub catchup : ℕ → Queue → ℕ → ℕ → Option Queue
catchup zero q head tail = none
catchup (suc fuel) q head tail =
    let (done, cell) = compare_exchange q.tail tail head in
    let rest = catchup fuel (record q { tail = cell }) q.head q.head in
    if done || leb q.head q.head then some (record q { tail = cell }) else rest

-- `self.threshold.fetch_add(-1)`
abbrev pub lower : Queue → Queue
lower q = record q { threshold = (q.threshold + (2 ^ 64 - 1)) % 2 ^ 64 }

-- The store of `size * 3 - 1` in the threshold, where it is another number.
unfoldable pub raise : Queue → Queue
raise q =
    let thres_chk = (q.size * 3 - 1) % 2 ^ 64 in
    if q.threshold == thres_chk then q else record q { threshold = thres_chk }

unfoldable pub enqueue_pass : Queue → ℕ → ℕ → Option (Pass (Unit {0}) × Queue)
unfolding cycle
enqueue_pass q tail i = do
  tail_cycle ← cycle tail q.size
  let j = tail % (q.size * 2)
  raw ← get_elem? q.entries j
  if ltb (ScqEntry.cycle raw) tail_cycle
        && (ScqEntry.index raw == q.invalid_index)
        && (ScqEntry.is_safe raw || leb q.head tail)
      then (do
        now ← get_elem? q.entries j
        let (done, cell) = compare_exchange now raw (ScqEntry.new true tail_cycle (i % 2 ^ 32))
        let q' = record q { entries = set q.entries j cell }
        some (if done then (returned tt, raise q') else (repeated, q')))
      else some (left, q)

-- The inner loop of `enqueue`: whether the index was placed.
unfoldable pub enqueue_entry : ℕ → Queue → ℕ → ℕ → Option (Bool × Queue)
enqueue_entry zero q tail i = none
enqueue_entry (suc fuel) q tail i = elim (enqueue_pass q tail i) [
  | none ↦ none
  | some (pass, q') ↦ elim pass [
    | returned _ ↦ some (true, q')
    | left ↦ some (false, q')
    | repeated ↦ enqueue_entry fuel q' tail i
  ]
]

unfoldable pub enqueue : ℕ → Queue → ℕ → Option Queue
enqueue zero q i = none
enqueue (suc fuel) q i =
    elim (enqueue_entry (suc fuel) (record q { tail = add_usize q.tail 1 }) q.tail i) [
      | none ↦ none
      | some (placed, q') ↦ elim placed [ true ↦ some q' | false ↦ enqueue fuel q' i ]
    ]

-- The end of a pass of `dequeue` that found no item of its cycle.
unfoldable pub missed : ℕ → Queue → ℕ → Option (Pass (Option ℕ) × Queue)
missed fuel q head =
    if leb q.tail (head + 1)
    then (do q' ← catchup fuel q head q.tail; some (returned none, lower q'))
    else if (q.threshold == 0) || leb (2 ^ 63) q.threshold
    then some (returned none, lower q)
    else some (left, lower q)

unfoldable pub dequeue_pass : ℕ → Queue → ℕ → Option (Pass (Option ℕ) × Queue)
unfolding cycle
dequeue_pass fuel q head = do
  head_cycle ← cycle head q.size
  let j = head % (q.size * 2)
  raw ← get_elem? q.entries j
  let entry_cycle = ScqEntry.cycle raw
  let entry_index = ScqEntry.index raw
  let entry_safe = ScqEntry.is_safe raw
  if entry_cycle == head_cycle
      then some (
        returned (some entry_index),
        record q {
          entries = set q.entries j (ScqEntry.new entry_safe entry_cycle q.invalid_index);
        },
      )
      else (do
        let new_value =
            if entry_index == q.invalid_index
            then ScqEntry.new entry_safe head_cycle q.invalid_index
            else ScqEntry.new false entry_cycle entry_index
        now ← get_elem? q.entries j
        let (done, cell) =
            if ltb entry_cycle head_cycle then compare_exchange now raw new_value else (true, now)
        let q' = record q { entries = set q.entries j cell }
        if done then missed fuel q' head else some (repeated, q'))

-- The inner loop of `dequeue`: its answer, if it has one.
unfoldable pub dequeue_entry : ℕ → Queue → ℕ → Option (Option (Option ℕ) × Queue)
dequeue_entry zero q head = none
dequeue_entry (suc fuel) q head = elim (dequeue_pass (suc fuel) q head) [
  | none ↦ none
  | some (pass, q') ↦ elim pass [
    | returned o ↦ some (some o, q')
    | left ↦ some (none, q')
    | repeated ↦ dequeue_entry fuel q' head
  ]
]

unfoldable pub dequeue_loop : ℕ → Queue → Option (Option ℕ × Queue)
dequeue_loop zero q = none
dequeue_loop (suc fuel) q =
    elim (dequeue_entry (suc fuel) (record q { head = add_usize q.head 1 }) q.head) [
      | none ↦ none
      | some (answer, q') ↦ elim answer [ some o ↦ some (o, q') | none ↦ dequeue_loop fuel q' ]
    ]

-- A negative threshold says that the queue is empty.
unfoldable pub dequeue : ℕ → Queue → Option (Option ℕ × Queue)
dequeue fuel q = if leb (2 ^ 63) q.threshold then some (none, q) else dequeue_loop fuel q
