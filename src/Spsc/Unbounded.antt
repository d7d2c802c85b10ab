-- ===== src/Spsc/Unbounded.antt =====
-- src/queues/spsc/unbounded.rs: a queue without a bound, as a chain of bounded buffers
-- (src/queues/spsc/bounded.rs) whose receiving halves go to the receiver through the linked queue
-- (src/queues/spsc/unbounded/d_spsc.rs). A buffer is an index of `channels`. An operation runs alone;
-- `none` is a fault of a buffer or of the linked queue, or one of the two panics of `enqueue`.
pub mod Waits
pub mod Repr
pub mod Refine
pub mod Sending
pub mod Closing
pub mod Receiving
pub mod Run
pub mod Waiting
mod Tests
use nolock.Prelude.{
  ℕ, zero, suc, Bool, true, false, not, ◌&&◌, Option, none, some, List, [], ◌∷◌, ◌++◌,
  if◌then◌else◌, length, get_elem?, set, ◌>>=◌, Result, ok, err,
}
use nolock.Queues.{EnqueueError, DequeueError, empty}
use nolock.Spsc.Bounded
use nolock.Spsc.Bounded.{Channel, EnqueueResult, DequeueResult}
use nolock.Spsc.Nodes

-- `closed` is shared; `buffer_size` and `buf_w` are the sender's, `buf_r` is the receiver's; `inuse`
-- is the linked queue of both `inuse_sender` and `inuse_recv`.
pub record Queue {ℓ} (A : Type ℓ) : Type ℓ where
  pub closed : Bool
  pub buffer_size : ℕ
  pub buf_w : ℕ
  pub buf_r : ℕ
  pub inuse : Nodes.Queue ℕ
  pub channels : List (Channel A)

module _ {ℓ} {A : Type ℓ} where
  unfoldable pub queue : Queue A
  queue = record {
    closed = false;
    buffer_size = 64;
    buf_w = 0;
    buf_r = 0;
    inuse = Nodes.new;
    channels = Bounded.queue 64 ∷ [];
  }

  -- One half of the buffer `c` is dropped.
  unfoldable pub leave : List (Channel A) → ℕ → Option (List (Channel A))
  leave channels c = do s ← get_elem? channels c; some (set channels c (Bounded.close s))

  -- Gives the new buffer, of which the receiver is told.
  unfoldable pub next_w : Queue A → Option (ℕ × Queue A)
  next_w q = do
    (sent, inuse) ← Nodes.enqueue q.inuse (length q.channels)
    elim sent [
      | ok _ ↦ some (
        length q.channels,
        record q { inuse = inuse; channels = q.channels ++ (Bounded.queue q.buffer_size ∷ []) },
      )
      | err _ ↦ none
    ]

  -- What `enqueue` does when the current buffer takes no more.
  unfoldable pub enqueue_next : Queue A → A → Option (EnqueueResult A × Queue A)
  enqueue_next q x = do
    (tx, q') ← next_w q
    channels ← leave q'.channels q.buf_w
    s ← get_elem? channels tx
    (answer, s') ← Bounded.try_enqueue s x
    elim answer [
      | ok _ ↦ some (ok tt, record q' { buf_w = tx; channels = set channels tx s' })
      | err _ ↦ none
    ]

  unfoldable pub enqueue : Queue A → A → Option (EnqueueResult A × Queue A)
  enqueue q x = if q.closed then some (err (x, EnqueueError.closed), q) else (do
    s ← get_elem? q.channels q.buf_w
    (answer, s') ← Bounded.try_enqueue s x
    let q' : Queue A = record q { channels = set q.channels q.buf_w s' }
    elim answer [ ok _ ↦ some (ok tt, q') | err (x', _) ↦ enqueue_next q' x' ])

  -- What `try_dequeue` does when the current buffer is closed.
  unfoldable pub dequeue_next : Queue A → Option (DequeueResult A × Queue A)
  dequeue_next q = do
    (got, inuse) ← Nodes.try_dequeue q.inuse
    elim got [
      | ok rx ↦ do
        channels ← leave q.channels q.buf_r
        s ← get_elem? channels rx
        (answer, s') ← Bounded.try_dequeue s
        some (answer, record q { buf_r = rx; inuse = inuse; channels = set channels rx s' })
      | err _ ↦ some (err DequeueError.closed, record q { inuse = inuse })
    ]

  unfoldable pub try_dequeue : Queue A → Option (DequeueResult A × Queue A)
  try_dequeue q = do
    s ← get_elem? q.channels q.buf_r
    (answer, s') ← Bounded.try_dequeue s
    let q' : Queue A = record q { channels = set q.channels q.buf_r s' }
    elim answer [
      | ok x ↦ some (ok x, q')
      | err e ↦ elim e [ empty ↦ some (err empty, q') | DequeueError.closed ↦ dequeue_next q' ]
    ]

  -- `is_closed` of the receiver; the sender's reads `closed`.
  unfoldable pub receiver_is_closed : Queue A → Option Bool
  receiver_is_closed q = do
    s ← get_elem? q.channels q.buf_r
    if Bounded.is_closed s then (do more ← Nodes.has_next q.inuse; some (not more)) else some false

  -- The drop of a half, with that of its buffer and of its half of the linked queue.
  unfoldable pub drop_sender : ℕ → Queue A → Option (Queue A)
  drop_sender fuel q = do
    channels ← leave q.channels q.buf_w
    inuse ← Nodes.drop_sender fuel q.inuse
    some (record q { closed = true; channels = channels; inuse = inuse })

  unfoldable pub drop_receiver : ℕ → Queue A → Option (Queue A)
  drop_receiver fuel q = do
    channels ← leave q.channels q.buf_r
    inuse ← Nodes.drop_receiver fuel q.inuse
    some (record q { closed = true; channels = channels; inuse = inuse })
