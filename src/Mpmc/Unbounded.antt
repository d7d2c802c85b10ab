-- ===== src/Mpmc/Unbounded.antt =====
-- src/queues/mpmc/unbounded.rs: the queue without a bound, a linked list of the bounded queues of
-- Mpmc.Segment in a memory of buffers. An operation runs alone. `none` is a panic, an access to a buffer that
-- is retired (but for the reference that `enqueue` makes first, see `reference`), or the end of the fuel of
-- a loop. When the reclamation scheme (src/hyaline.rs) frees a retired buffer is not modelled: no read of
-- one is let through.
pub mod Chain
pub mod Sending
pub mod Receiving
pub mod Retiring
pub mod Standing
pub mod Run
mod Tests
use nolock.Prelude.{
  ℕ, zero, suc, ◌+◌, ◌-◌, ◌*◌, ◌%◌, ◌^◌, Bool, true, false, Option, none, some, List, [], ◌∷◌, ◌++◌,
  ◌==◌, if◌then◌else◌, get_elem?, set, length, ◌>>=◌, Result, ok, err, compare_exchange,
}
use nolock.Queues.{DequeueError, empty}
use nolock.Mpmc.Segment
use nolock.Mpmc.Segment.{BoundedQueue}

-- A bounded queue with its pointer to the next one; a null pointer is `none`.
pub record Buffer {ℓ} (A : Type ℓ) : Type ℓ where
  pub queue : BoundedQueue A
  pub next : Option ℕ

-- The receiver (`head`), the sender (`tail`) and what they share, and the memory: a buffer that is retired is `none`,
-- and `retired` the buffers that the reclamation scheme was given, the last one first.
pub record Channel {ℓ} (A : Type ℓ) : Type ℓ where
  pub memory : List (Option (Buffer A))
  pub head : ℕ
  pub tail : ℕ
  pub retired : List ℕ
  pub rx_count : ℕ
  pub tx_count : ℕ

-- Whether the buffer is the one that was retired last.
abbrev pub is_last : ℕ → List ℕ → Bool
is_last p [] = false
is_last p (q ∷ retired) = p == q

module _ {ℓ} {A : Type ℓ} where
  abbrev pub deref : List (Option (Buffer A)) → ℕ → Option (Buffer A)
  deref m p = do cell ← get_elem? m p; cell

  -- `handle.retire(ptr)`; a buffer is retired once.
  unfoldable pub retire : ℕ → Channel A → Option (Channel A)
  retire p s = do
    b ← deref s.memory p
    some (record s { memory = set s.memory p none; retired = p ∷ s.retired })

  -- `&*ptr`, of a buffer that is not retired, or that was retired last: the scheme keeps that one in a batch until the next
  -- one is retired, or it is dropped itself. No field is read.
  unfoldable pub reference : Channel A → ℕ → Option (Unit {0})
  reference s p = do
    cell ← get_elem? s.memory p
    elim cell [
      | some _ ↦ some tt
      | none ↦ elim (is_last p s.retired) [ true ↦ some tt | false ↦ none ]
    ]

  -- `Sender::is_closed`
  unfoldable pub receivers_gone : Channel A → Bool
  receivers_gone s = s.rx_count == 0

  -- `Receiver::is_closed`
  unfoldable pub senders_gone : Channel A → Bool
  senders_gone s = s.tx_count == 0

  unfoldable pub drop_sender : Channel A → Channel A
  drop_sender s = record s { tx_count = (s.tx_count + 2 ^ 64 - 1) % 2 ^ 64 }

  -- The loop of `Receiver::drop`.
  unfoldable pub retire_all : ℕ → Channel A → ℕ → Option (Channel A)
  retire_all zero s current = none
  retire_all (suc fuel) s current = do
    b ← deref s.memory current
    s' ← retire current s
    elim b.next [ none ↦ some s' | some next ↦ retire_all fuel s' next ]

  -- As many rounds as the memory has places.
  unfoldable pub drop_receiver : Channel A → Option (Channel A)
  drop_receiver s =
      retire_all (length s.memory) (record s { rx_count = (s.rx_count + 2 ^ 64 - 1) % 2 ^ 64 })
        s.head

-- `buffer_size` is `BUFFER_SIZE`, and `fuel` that of the loops of the index queues.
module _ (buffer_size fuel : ℕ) where
  unfoldable pub queue {ℓ} : {A : Type ℓ} → Option (Channel A)
  queue = do
    initial_buffer ← Segment.new_queue fuel buffer_size
    some (record {
      memory = some (record { queue = initial_buffer; next = none }) ∷ [];
      head = 0;
      tail = 0;
      retired = [];
      rx_count = 1;
      tx_count = 1;
    })

  module _ {ℓ} {A : Type ℓ} where
    -- The end of a round of `Sender::enqueue` whose buffer is full: a new one with the item is linked behind
    -- it, or the item taken out of it again, for another round.
    unfoldable pub append : Channel A → A → Option (Option A × Channel A)
    append s x = do
      made ← Segment.new_queue fuel buffer_size
      (_, n_queue) ← Segment.try_enqueue fuel made x
      let n_queue_ptr = length s.memory
      let m = s.memory ++ (some (record { queue = n_queue; next = none }) ∷ [])
      b ← deref m s.tail
      elim b.next [
        | none ↦ some (
          none,
          record s {
            memory = set m s.tail (some (record b { next = some n_queue_ptr }));
            tail = (compare_exchange s.tail s.tail n_queue_ptr).1;
          },
        )
        | some _ ↦ do
          (got, _) ← Segment.dequeue fuel n_queue
          elim got [
            | ok y ↦ some (some y, record s { memory = set m n_queue_ptr none })
            | err _ ↦ none
          ]
      ]

    unfoldable pub enqueue : ℕ → Channel A → A → Option (Result (Unit {0}) A × Channel A)
    enqueue zero s x = none
    enqueue (suc rounds) s x = do
      _ ← reference s s.tail
      elim (receivers_gone s) [
        | true ↦ some (err x, s)
        | false ↦ do
          b ← deref s.memory s.tail
          elim b.next [
            | some next ↦
                enqueue rounds (record s { tail = (compare_exchange s.tail s.tail next).1 }) x
            | none ↦ do
              (answer, q) ← Segment.try_enqueue fuel b.queue x
              let s' = record s { memory = set s.memory s.tail (some (record b { queue = q })) }
              elim answer [
                | ok _ ↦ some (ok tt, s')
                | err (_, y) ↦ do
                  (back, s'') ← append s' y
                  elim back [ none ↦ some (ok tt, s'') | some z ↦ enqueue rounds s'' z ]
              ]
          ]
      ]

    unfoldable pub try_dequeue : ℕ → Channel A → Option (Result A DequeueError × Channel A)
    try_dequeue zero s = none
    try_dequeue (suc rounds) s = elim (senders_gone s) [
      | true ↦ some (err DequeueError.closed, s)
      | false ↦ do
        b ← deref s.memory s.head
        (first, q) ← Segment.dequeue fuel b.queue
        let s1 = record s { memory = set s.memory s.head (some (record b { queue = q })) }
        elim first [
          | ok x ↦ some (ok x, s1)
          | err _ ↦ elim b.next [
            | none ↦ some (err empty, s1)
            | some next ↦ do
              let thres_chk = (q.aq.size * 3 - 1) % 2 ^ 64
              (second, q2) ←
                  Segment.dequeue fuel (record q { aq = record q.aq { threshold = thres_chk } })
              let s2 = record s { memory = set s.memory s.head (some (record b { queue = q2 })) }
              elim second [
                | ok x ↦ some (ok x, s2)
                | err _ ↦ do
                  s3 ← retire s.head (record s2 { head = (compare_exchange s.head s.head next).1 })
                  try_dequeue rounds s3
              ]
          ]
        ]
    ]
