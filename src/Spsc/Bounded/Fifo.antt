-- ===== src/Spsc/Bounded/Fifo.antt =====
-- What a bounded queue promises: a first-in first-out list of at most `cap` items with a flag.
use nolock.Prelude.{
  ℕ, Bool, List, [], ◌∷◌, ◌++◌, if◌then◌else◌, ◌==◌, ◌≡◌, ◌≢◌, true, false, arith, length, Result,
  ok, err,
}
use nolock.Queues.{EnqueueError, full, DequeueError, empty}

pub record Fifo {ℓ} (A : Type ℓ) : Type ℓ where
  pub items : List A
  pub closed : Bool

module _ {ℓ} {A : Type ℓ} where
  abbrev pub push : ℕ → Fifo A → A → Result (Unit {0}) (A × EnqueueError) × Fifo A
  push cap q x =
      if q.closed
      then (err (x, EnqueueError.closed), q)
      else if length q.items == cap
      then (err (x, full), q)
      else (ok tt, record q { items = q.items ++ (x ∷ []) })

  -- A closed queue is first emptied.
  abbrev pub pop : Fifo A → Result A DequeueError × Fifo A
  pop q = elim q.items [
    | [] ↦ (if q.closed then err DequeueError.closed else err empty, q)
    | x ∷ rest ↦ (ok x, record q { items = rest })
  ]

  pub push_closed :
      (n : ℕ) (q : Fifo A) (x : A)
      → q.closed ≡ true
      → push n q x ≡ (err (x, EnqueueError.closed), q)
  push_closed n q x c = ground arith

  pub push_full :
      (n : ℕ) (q : Fifo A) (x : A)
      → q.closed ≡ false
      → length q.items ≡ n
      → push n q x ≡ (err (x, full), q)
  push_full n q x o e = ground arith

  pub push_room :
      (n : ℕ) (q : Fifo A) (x : A)
      → q.closed ≡ false
      → length q.items ≢ n
      → push n q x ≡ (ok tt, record q { items = q.items ++ (x ∷ []) })
  push_room n q x o e = ground arith
