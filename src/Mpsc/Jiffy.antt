-- ===== src/Mpsc/Jiffy.antt =====
-- src/queues/mpsc/jiffy.rs: the unbounded queue of any number of producers and one consumer, on a memory of
-- buffers (Mpsc.BufferList). An operation runs alone, but for `Sender::enqueue`, which may also stop between
-- the reservation of its place and the store of its item (`reserve` and `fill`), with other operations in
-- between. `none` is a panic, an access to a freed buffer or behind the end of one, or the end of the fuel of a
-- loop.
pub mod Holds
pub mod Writing
pub mod Sending
pub mod Taking
pub mod Empty
pub mod Receiving
pub mod Run
pub mod Stalled
pub mod Closing
use nolock.Prelude.{
  ℕ, zero, suc, ◌+◌, ◌-◌, ◌*◌, Bool, true, false, ◌&&◌, Option, none, some, List, [], ◌∷◌, ◌==◌,
  ltb, leb, if◌then◌else◌, get_elem?, set, length, ◌>>=◌, Result, ok, err, add_usize,
}
use nolock.Queues.{EnqueueError, DequeueError}
use nolock.Mpsc.Node
use nolock.Mpsc.Node.{Node, NodeState, empty, handled, get_state, store, load}
use nolock.Mpsc.BufferList.{
  BufferList, Memory, deref, is_handled_state, boxed, scan, allocate_next, go_to_next,
  deallocate_all,
}

-- The sender (`tail`, `tail_of_queue`), the receiver (`head_of_queue`) and what they share.
pub record Channel {ℓ} (A : Type ℓ) : Type ℓ where
  pub memory : Memory A
  pub closed : Bool
  pub tail : ℕ
  pub tail_of_queue : ℕ
  pub head_of_queue : ℕ

module _ {ℓ} {A : Type ℓ} where
  -- `self.tail.fetch_add(1)`
  unfoldable pub reserve : Channel A → ℕ × Channel A
  reserve s = (s.tail, record s { tail = add_usize s.tail 1 })

  -- The walk of `enqueue` back to the buffer of the place; whether it is the one that the walk began with.
  unfoldable pub walk_back : ℕ → ℕ → Memory A → ℕ → ℕ → Bool → Option (ℕ × Bool)
  walk_back buffer_size zero m p location last_buffer = none
  walk_back buffer_size (suc fuel) m p location last_buffer = do
    b ← deref m p
    elim (ltb location ((b.position_in_queue - 1) * buffer_size)) [
      | false ↦ some (p, last_buffer)
      | true ↦ do previous ← b.previous; walk_back buffer_size fuel m previous location false
    ]

  -- `current_queue.buffer.get(current_queue.head)`
  unfoldable pub current : Channel A → Option (Option (Node A))
  current s = do b ← deref s.memory s.head_of_queue; some (get_elem? b.buffer b.head)

  -- `current_queue.head += 1`
  unfoldable pub advance : Channel A → Option (Channel A)
  advance s = do
    b ← deref s.memory s.head_of_queue
    let b' = record b { head = b.head + 1 }
    some (record s { memory = set s.memory s.head_of_queue (some b') })

  -- A node of a buffer is written.
  unfoldable pub put : Memory A → ℕ → ℕ → Node A → Option (Memory A)
  put m p i n = do b ← deref m p; some (set m p (some (record b { buffer = set b.buffer i n })))

  -- The last buffer from `p` on.
  unfoldable pub last_from : ℕ → Memory A → ℕ → Option ℕ
  last_from zero m p = none
  last_from (suc fuel) m p = do
    b ← deref m p
    elim b.next [ none ↦ some p | some next ↦ last_from fuel m next ]

  -- `close_side` for the sender and for the receiver. The walks have as many rounds as the memory has places.
  unfoldable pub drop_sender : Channel A → Option (Channel A)
  drop_sender s = elim s.closed [
    | false ↦ some (record s { closed = true })
    | true ↦ do
      m ← deallocate_all (length s.memory) s.memory (some s.tail_of_queue)
      some (record s { memory = m })
  ]

  unfoldable pub drop_receiver : Channel A → Option (Channel A)
  drop_receiver s = elim s.closed [
    | false ↦ some (record s { closed = true })
    | true ↦ do
      p ← last_from (length s.memory) s.memory s.head_of_queue
      m ← deallocate_all (length s.memory) s.memory (some p)
      some (record s { memory = m })
  ]

module _ (buffer_size : ℕ) where
  unfoldable pub queue {ℓ} : {A : Type ℓ} → Channel A
  queue = record {
    memory = some (boxed buffer_size none 1) ∷ [];
    closed = false;
    tail = 0;
    tail_of_queue = 0;
    head_of_queue = 0;
  }

  module _ {ℓ} {A : Type ℓ} where
    -- The walk of `enqueue` on to a buffer that ends behind the place.
    unfoldable pub walk_on : ℕ → Memory A → ℕ → ℕ → ℕ → Option (ℕ × Memory A × ℕ)
    walk_on zero m tail_of_queue p location = none
    walk_on (suc fuel) m tail_of_queue p location = do
      b ← deref m p
      elim (leb (b.position_in_queue * buffer_size) location) [
        | false ↦ some (p, m, tail_of_queue)
        | true ↦ do
          (p', m', tail') ← go_to_next buffer_size m p tail_of_queue
          walk_on fuel m' tail' p' location
      ]

    -- The rest of `Sender::enqueue`, for the place `location`.
    unfoldable pub fill : ℕ → Channel A → ℕ → A → Option (Channel A)
    fill fuel s location x = do
      (p, m1, tail1) ← walk_on fuel s.memory s.tail_of_queue s.tail_of_queue location
      (q, last_buffer) ← walk_back buffer_size fuel m1 p location true
      b ← deref m1 q
      let index = location - (b.position_in_queue - 1) * buffer_size
      n ← get_elem? b.buffer index
      m2 ← put m1 q index (store n x)
      if last_buffer && (index == 2)
          then (do
            (_, m3, tail3) ← allocate_next buffer_size m2 q tail1
            some (record s { memory = m3; tail_of_queue = tail3 }))
          else some (record s { memory = m2; tail_of_queue = tail1 })

    unfoldable pub enqueue :
        ℕ → Channel A → A → Option (Result (Unit {0}) (A × EnqueueError) × Channel A)
    enqueue fuel s x =
        if s.closed
        then some (err (x, EnqueueError.closed), s)
        else (do let (location, s1) = reserve s; s2 ← fill fuel s1 location x; some (ok tt, s2))

    unfoldable pub move_to_next_buffer : Channel A → Option (Bool × Channel A)
    move_to_next_buffer s = do
      b ← deref s.memory s.head_of_queue
      if leb buffer_size b.head
          then (elim b.next [
            | none ↦ some (false, s)
            | some next_ptr ↦ do
              let m = set s.memory s.head_of_queue none
              next ← deref m next_ptr
              some (
                true,
                record s {
                  memory = set m next_ptr (some (record next { previous = none }));
                  head_of_queue = next_ptr;
                },
              )
          ])
          else some (true, s)

    -- The entry at the head, looked for again in the next buffer where there is none.
    unfoldable pub current_or_next : Channel A → Option (Option (Node A) × Channel A)
    current_or_next s = do
      n ← current s
      elim n [
        | some n ↦ some (some n, s)
        | none ↦ do (_, s') ← move_to_next_buffer s; n' ← current s'; some (n', s')
      ]

    -- The loop over the handled nodes: `none` where it answers that there is nothing.
    unfoldable pub skip_handled : ℕ → Channel A → Node A → Option (Option (Node A) × Channel A)
    skip_handled zero s n = none
    skip_handled (suc fuel) s n = do
      state ← get_state n
      elim (is_handled_state state) [
        | false ↦ some (some n, s)
        | true ↦ do
          s1 ← advance s
          (moved, s2) ← move_to_next_buffer s1
          elim moved [
            | false ↦ some (none, s2)
            | true ↦ do
              (n', s3) ← current_or_next s2
              elim n' [ none ↦ some (none, s3) | some n' ↦ skip_handled fuel s3 n' ]
          ]
      ]

    -- The node that `scan` found is loaded; a panic where it holds nothing.
    unfoldable pub load_at : Channel A → ℕ → ℕ → Option (Result A DequeueError × Channel A)
    load_at s p i = do
      b ← deref s.memory p
      elim (get_elem? b.buffer i) [
        | none ↦ some (err DequeueError.empty, s)
        | some n ↦ do
          (item, n') ← load n
          x ← item
          m ← put s.memory p i n'
          some (ok x, record s { memory = m })
      ]

    -- The head of the queue is being written to: another entry that is set is looked for, and once more where
    -- the queue is closed.
    unfoldable pub dequeue_behind : ℕ → Channel A → Option (Result A DequeueError × Channel A)
    dequeue_behind fuel s = do
      b ← deref s.memory s.head_of_queue
      (p, found) ← scan buffer_size fuel s.memory s.head_of_queue b.head
      elim found [
        | some i ↦ load_at s p i
        | none ↦ elim s.closed [
          | false ↦ some (err DequeueError.empty, s)
          | true ↦ do
            (p', found') ← scan buffer_size fuel s.memory s.head_of_queue b.head
            elim found' [ some i ↦ load_at s p' i | none ↦ some (err DequeueError.closed, s) ]
        ]
      ]

    -- The node at the head is set: it is loaded, and the head goes on.
    unfoldable pub dequeue_head : Channel A → Node A → Option (Result A DequeueError × Channel A)
    dequeue_head s n = do
      b ← deref s.memory s.head_of_queue
      (item, n') ← load n
      x ← item
      m ← put s.memory s.head_of_queue b.head n'
      s1 ← advance (record s { memory = m })
      (_, s2) ← move_to_next_buffer s1
      some (ok x, s2)

    unfoldable pub try_dequeue : ℕ → Channel A → Option (Result A DequeueError × Channel A)
    try_dequeue fuel s = do
      (first, s1) ← current_or_next s
      elim first [
        | none ↦ some (err DequeueError.empty, s1)
        | some n ↦ do
          (pending, s2) ← skip_handled fuel s1 n
          elim pending [
            | none ↦ some (err DequeueError.empty, s2)
            | some n ↦ do
              state ← get_state n
              elim state [
                | NodeState.set ↦ dequeue_head s2 n
                | empty ↦ dequeue_behind fuel s2
                | handled ↦ some (err DequeueError.empty, s2)
              ]
          ]
      ]
