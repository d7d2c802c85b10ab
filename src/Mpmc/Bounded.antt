-- ===== src/Mpmc/Bounded.antt =====
-- src/queues/mpmc/queue.rs: a bounded queue of items, made of a buffer and two queues of indices,
-- `aq` of the entries that hold an item and `fq` of the free ones. Also src/queues/mpmc/bounded.rs,
-- whose functions pass their arguments on. An operation runs alone; `none` is a panic, an entry read
-- before it is written, or an operation of an index queue that gives nothing back.
pub mod Distinct
pub mod Spec
pub mod Repr
pub mod Refine
pub mod Run
use nolock.Prelude.{
  ℕ, zero, suc, ◌+◌, ◌-◌, ◌%◌, ◌^◌, Bool, Option, none, some, List, if◌then◌else◌, ◌==◌, get_elem?,
  set, replicate, ◌>>=◌, Result, ok, err,
}
use nolock.Queues.{EnqueueError, full, DequeueError, empty}
use nolock.Mpmc.Underlying.{UnderlyingQueue}

-- Both halves hold the same shared parts. An entry that is not initialised is `none`.
pub record Channel {ℓ} (Q : Type 0) (A : Type ℓ) : Type ℓ where
  pub buffer : List (Option A)  -- `data`
  pub aq : Q
  pub fq : Q
  pub rx_count : ℕ
  pub tx_count : ℕ

module _ (u : UnderlyingQueue) where
  open u use {Queue, enqueue, dequeue}

  -- `for index in 0..capacity { fq.enqueue(index) }`, with `count` indices to go.
  unfoldable pub fill : ℕ → ℕ → Queue → Option Queue
  fill zero index q = some q
  fill (suc count) index q = do q' ← enqueue q index; fill count (suc index) q'

  -- `queue_ncq` and `queue_scq`, with the two new index queues given.
  unfoldable pub queue {ℓ} : {A : Type ℓ} → Queue → Queue → ℕ → Option (Channel Queue A)
  queue aq fq capacity = do
    fq' ← fill capacity 0 fq
    some
        (record { buffer = replicate capacity none; aq = aq; fq = fq'; rx_count = 1; tx_count = 1 })

  module _ {ℓ} {A : Type ℓ} where
    -- `BoundedSender::is_closed`
    unfoldable pub receivers_gone : Channel Queue A → Bool
    receivers_gone s = s.rx_count == 0

    -- `BoundedReceiver::is_closed`
    unfoldable pub senders_gone : Channel Queue A → Bool
    senders_gone s = s.tx_count == 0

    unfoldable pub try_enqueue :
        Channel Queue A → A → Option (Result (Unit {0}) (EnqueueError × A) × Channel Queue A)
    unfolding receivers_gone
    try_enqueue s x = if receivers_gone s then some (err (EnqueueError.closed, x), s) else (do
      (got, fq') ← dequeue s.fq
      elim got [
        | none ↦ some (err (full, x), record s { fq = fq' })
        | some index ↦ do
          bucket ← get_elem? s.buffer index
          aq' ← enqueue s.aq index
          some (ok tt, record s { buffer = set s.buffer index (some x); aq = aq'; fq = fq' })
      ])

    unfoldable pub try_dequeue : Channel Queue A → Option (Result A DequeueError × Channel Queue A)
    unfolding senders_gone
    try_dequeue s = do
      (got, aq') ← dequeue s.aq
      elim got [
        | none ↦
            some
              (if senders_gone s then err DequeueError.closed else err empty, record s { aq = aq' })
        | some index ↦ do
          bucket ← get_elem? s.buffer index
          x ← bucket
          fq' ← enqueue s.fq index
          some (ok x, record s { buffer = set s.buffer index none; aq = aq'; fq = fq' })
      ]

    -- `Drop` of a sender and of a receiver: `fetch_sub(1)`
    unfoldable pub drop_sender : Channel Queue A → Channel Queue A
    drop_sender s = record s { tx_count = (s.tx_count + 2 ^ 64 - 1) % 2 ^ 64 }

    unfoldable pub drop_receiver : Channel Queue A → Channel Queue A
    drop_receiver s = record s { rx_count = (s.rx_count + 2 ^ 64 - 1) % 2 ^ 64 }
