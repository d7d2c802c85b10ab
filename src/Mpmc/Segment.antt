-- ===== src/Mpmc/Segment.antt =====
-- src/queues/mpmc/unbounded/queue.rs: `BoundedQueue`, a bounded queue that takes no item any more once it
-- was full, without the pointer to the next one. Its two queues of indices are those of Mpmc.FinalScq,
-- whose `new` and `dequeue` are the ones of Mpmc.Scq. An operation runs alone; `none` is a panic, an
-- entry read before it is written, or the end of the fuel of a loop.
pub mod Laws
pub mod Refine
mod Tests
use nolock.Prelude.{
  ℕ, zero, suc, Option, none, some, List, get_elem?, set, replicate, ◌>>=◌, Result, ok, err,
}
use nolock.Queues.{EnqueueError, full, DequeueError, empty}
use nolock.Mpmc.Scq
use nolock.Mpmc.FinalScq.{finalize, enqueue}

-- An entry that is not initialised is `none`.
pub record BoundedQueue {ℓ} (A : Type ℓ) : Type ℓ where
  pub data_entries : List (Option A)
  pub aq : Scq.Queue
  pub fq : Scq.Queue

-- `for index in 0..capacity { fq.enqueue(index).expect(..) }`, with `count` indices to go.
unfoldable pub fill : ℕ → ℕ → ℕ → Scq.Queue → Option Scq.Queue
fill fuel zero index q = some q
fill fuel (suc count) index q = do
  (answer, q') ← enqueue fuel q index
  elim answer [ ok _ ↦ fill fuel count (suc index) q' | err _ ↦ none ]

unfoldable pub new_queue {ℓ} : {A : Type ℓ} → ℕ → ℕ → Option (BoundedQueue A)
new_queue fuel capacity = do
  fq ← fill fuel capacity 0 (Scq.new capacity)
  some (record { data_entries = replicate capacity none; aq = Scq.new capacity; fq = fq })

module _ {ℓ} {A : Type ℓ} where
  unfoldable pub try_enqueue :
      ℕ → BoundedQueue A → A → Option (Result (Unit {0}) (EnqueueError × A) × BoundedQueue A)
  try_enqueue fuel s x = do
    (got, fq') ← Scq.dequeue fuel s.fq
    elim got [
      | none ↦ some (err (full, x), record s { aq = finalize s.aq; fq = fq' })
      | some index ↦ do
        bucket ← get_elem? s.data_entries index
        (answer, aq') ← enqueue fuel s.aq index
        let written = set s.data_entries index (some x)
        elim answer [
          | ok _ ↦ some (ok tt, record s { data_entries = written; aq = aq'; fq = fq' })
          | err _ ↦ do
            held ← get_elem? written index
            old ← held
            some (
              err (full, old),
              record s { data_entries = set written index none; aq = aq'; fq = fq' },
            )
        ]
    ]

  unfoldable pub dequeue : ℕ → BoundedQueue A → Option (Result A DequeueError × BoundedQueue A)
  dequeue fuel s = do
    (got, aq') ← Scq.dequeue fuel s.aq
    elim got [
      | none ↦ some (err empty, record s { aq = aq' })
      | some index ↦ do
        bucket ← get_elem? s.data_entries index
        x ← bucket
        (answer, fq') ← enqueue fuel s.fq index
        elim answer [
          | ok _ ↦
              some (
                ok x,
                record s { data_entries = set s.data_entries index none; aq = aq'; fq = fq' },
              )
          | err _ ↦ none
        ]
    ]
