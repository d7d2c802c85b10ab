-- ===== src/Mpmc/Bounded/Spec.antt =====
-- What the bounded queue of src/queues/mpmc/queue.rs promises: a first-in first-out list of at most
-- `n` items, and whether each half is still there.
use nolock.Prelude.{
  ℕ, Bool, List, [], ◌∷◌, ◌++◌, if◌then◌else◌, ◌==◌, ◌≡◌, ◌≢◌, true, false, arith, length, Result,
  ok, err,
}
use nolock.Queues.{EnqueueError, full, DequeueError, empty}

pub record Fifo {ℓ} (A : Type ℓ) : Type ℓ where
  pub items : List A
  pub receiver : Bool
  pub sender : Bool

module _ {ℓ} {A : Type ℓ} where
  abbrev pub push : ℕ → Fifo A → A → Result (Unit {0}) (EnqueueError × A) × Fifo A
  push n q x =
      if q.receiver
      then (if length q.items == n
          then (err (full, x), q)
          else (ok tt, record q { items = q.items ++ (x ∷ []) }))
      else (err (EnqueueError.closed, x), q)

  -- What a sender that has left has sent is still received.
  abbrev pub pop : Fifo A → Result A DequeueError × Fifo A
  pop q = elim q.items [
    | [] ↦ (if q.sender then err empty else err DequeueError.closed, q)
    | x ∷ rest ↦ (ok x, record q { items = rest })
  ]

  pub push_closed :
      (n : ℕ) (q : Fifo A) (x : A)
      → q.receiver ≡ false
      → push n q x ≡ (err (EnqueueError.closed, x), q)
  push_closed n q x c = ground arith

  pub push_full :
      (n : ℕ) (q : Fifo A) (x : A)
      → q.receiver ≡ true
      → length q.items ≡ n
      → push n q x ≡ (err (full, x), q)
  push_full n q x o e = ground arith

  pub push_room :
      (n : ℕ) (q : Fifo A) (x : A)
      → q.receiver ≡ true
      → length q.items ≢ n
      → push n q x ≡ (ok tt, record q { items = q.items ++ (x ∷ []) })
  push_room n q x o e = ground arith

  -- Neither changes which halves are there.
  pub push_keeps :
      (n : ℕ) (q : Fifo A) (x : A)
      → ((push n q x).1.receiver ≡ q.receiver) × ((push n q x).1.sender ≡ q.sender)
  push_keeps n q x = ground arith

  pub pop_keeps : (q : Fifo A) → ((pop q).1.receiver ≡ q.receiver) × ((pop q).1.sender ≡ q.sender)
  pop_keeps q = ground arith
