-- ===== src/Spsc/Bounded.antt =====
-- src/queues/spsc/bounded.rs: both halves of a bounded queue and what they share. An operation is
-- one call that runs alone; `none` is a fault: an access outside the buffer (`get_unchecked`, or the
-- panic of an index) or the panic of `unwrap` in `Node::load`.
pub mod Fifo
pub mod Index
pub mod Repr
pub mod Refine
pub mod Run
pub mod Waiting
pub mod Slots
pub mod Threads
use nolock.Prelude.{
  ℕ, ◌+◌, ◌%◌, ◌^◌, Bool, true, false, not, Option, some, List, leb, if◌then◌else◌, length,
  get_elem?, set, replicate, Result, ok, err, ◌>>=◌,
}
use nolock.Queues.{EnqueueError, full, DequeueError, empty}
use nolock.Spsc.Node
use nolock.Spsc.Node.{Node}

-- `closed` and `buffer` are shared by both halves; `head` is the field of `BoundedSender`, and
-- `tail` that of `BoundedReceiver`.
pub record Channel {ℓ} (A : Type ℓ) : Type ℓ where
  pub closed : Bool
  pub buffer : List (Node A)
  pub head : ℕ
  pub tail : ℕ

-- `usize` addition wraps.
unfoldable pub next_element : ℕ → ℕ → ℕ
next_element current len =
    let target = (current + 1) % 2 ^ 64 in if leb len target then 0 else target

abbrev pub EnqueueResult {ℓ} : Type ℓ → Type ℓ
EnqueueResult A = Result (Unit {0}) (A × EnqueueError)

abbrev pub DequeueResult {ℓ} : Type ℓ → Type ℓ
DequeueResult A = Result A DequeueError

module _ {ℓ} {A : Type ℓ} where
  unfoldable pub queue : ℕ → Channel A
  queue capacity = record {
    closed = false;
    buffer = replicate capacity Node.new;
    head = 0;
    tail = 0;
  }

  unfoldable pub is_closed : Channel A → Bool
  is_closed s = s.closed

  unfoldable pub try_enqueue : Channel A → A → Option (EnqueueResult A × Channel A)
  unfolding is_closed
  try_enqueue s x = if is_closed s then some (err (x, EnqueueError.closed), s) else (do
    entry ← get_elem? s.buffer s.head
    if entry.is_set
        then some (err (x, full), s)
        else some (
          ok tt,
          record s {
            buffer = set s.buffer s.head (Node.store entry x);
            head = next_element s.head (length s.buffer);
          },
        ))

  -- The entry is read again after `closed`: alone, the second read sees what the first one saw.
  unfoldable pub try_dequeue : Channel A → Option (DequeueResult A × Channel A)
  unfolding is_closed
  try_dequeue s = do
    entry ← get_elem? s.buffer s.tail
    if not entry.is_set
        then (if is_closed s
            then (if not entry.is_set
                then some (err DequeueError.closed, s)
                else some (err empty, s))
            else some (err empty, s))
        else (do
          (x, entry') ← Node.load entry
          some (
            ok x,
            record s {
              buffer = set s.buffer s.tail entry';
              tail = next_element s.tail (length s.buffer);
            },
          ))

  unfoldable pub is_full : Channel A → Option Bool
  is_full s = do entry ← get_elem? s.buffer s.head; some entry.is_set

  unfoldable pub is_empty : Channel A → Option Bool
  is_empty s = do entry ← get_elem? s.buffer s.tail; some (not entry.is_set)

  -- `Drop` of either half
  unfoldable pub close : Channel A → Channel A
  close s = record s { closed = true }
