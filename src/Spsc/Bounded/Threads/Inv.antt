-- ===== src/Spsc/Bounded/Threads/Inv.antt =====
-- What holds between the two threads of a bounded queue, wherever they stand.
use nolock.Prelude.{
  ℕ, ◌+◌, ◌%◌, ◌^◌, ◌<◌, ◌≤◌, ◌≡◌, true, false, Option, none, some, List, [], ◌++◌, ◌⊎◌,
  if◌then◌else◌, ◌==◌, length, get_elem?, err,
}
use nolock.Queues.{DequeueError}
use nolock.Spsc.Node
use nolock.Spsc.Node.{Node}
use nolock.Spsc.Bounded.Slots.{Slots}
use nolock.Spsc.Bounded.Threads.{Producer, room, written, Consumer, closing, ready, taken, System}

module _ {ℓ} {A : Type ℓ} where
  -- The entry behind the last item, as the producer leaves it.
  abbrev pub behind : Producer A → Node A
  behind (written x) = record { content = some x; is_set = false }
  behind _ = Node.new

  abbrev pub cell : Option A → Node A
  cell none = Node.new
  cell (some x) = Node.filled x

  -- The entry of the first item, as the consumer leaves it.
  abbrev pub front : Consumer A → Option A → Node A
  front (taken x) o = record { content = none; is_set = true }
  front _ o = cell o

  -- What the entry `i` places from the tail holds.
  abbrev pub expected : List A → Producer A → Consumer A → ℕ → Node A
  expected q p c i =
      if i == length q
      then behind p
      else if i == 0
      then front c (get_elem? q 0)
      else cell (get_elem? q i)

  -- The producer goes on only where there is room.
  abbrev pub ProducerOk : ℕ → ℕ → Producer A → Type 0
  ProducerOk n k (room x) = k < n
  ProducerOk n k (written x) = k < n
  ProducerOk n k _ = Unit {0}

  -- The consumer takes the first item.
  abbrev pub ConsumerOk : List A → Consumer A → Type ℓ
  ConsumerOk q ready = (x : A) × (get_elem? q 0 ≡ some x)
  ConsumerOk q (taken x) = get_elem? q 0 ≡ some x
  ConsumerOk q _ = Unit {ℓ}

  -- `q` is what has been sent and not yet been taken off.
  pub record Inv (n : ℕ) (q : List A) (s : System A) : Type ℓ where
    pub slots : Slots n s.chan.tail (expected q s.producer s.consumer) s.chan.buffer
    pub head_at : s.chan.head ≡ (s.chan.tail + length q) % n
    pub fits : length q ≤ n
    pub within : n < 2 ^ 64
    pub history : s.sent ≡ s.got ++ q
    pub producer_ok : ProducerOk n (length q) s.producer
    pub consumer_ok : ConsumerOk q s.consumer
    pub who_closed :
        s.chan.closed ≡ true → (s.producer ≡ Producer.gone) ⊎ (s.consumer ≡ Consumer.gone)
    pub while_closing : s.consumer ≡ closing → s.producer ≡ Producer.gone
    pub at_end : s.last ≡ some (err DequeueError.closed) → (s.producer ≡ Producer.gone) × (q ≡ [])
