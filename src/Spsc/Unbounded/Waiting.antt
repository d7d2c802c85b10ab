-- ===== src/Spsc/Unbounded/Waiting.antt =====
-- `UnboundedReceiver::dequeue` of src/queues/spsc/unbounded.rs, which spins on `try_dequeue`, with what
-- the sender does in between. `fuel` bounds the attempts; `none` is its end, or a fault.
use nolock.Prelude.{
  ℕ, zero, suc, ◌≡◌, refl, true, false, Bool, Option, none, some, List, [], ◌∷◌, ok, err, ◌>>=◌,
  if◌then◌else◌,
}
use nolock.Queues.{DequeueError}
use nolock.Spsc.Unbounded.{Queue, enqueue, try_dequeue, drop_sender}
use nolock.Spsc.Unbounded.Repr.{Contains}
use nolock.Spsc.Unbounded.Refine.{enqueue_refines_open, drop_sender_refines}
use nolock.Spsc.Unbounded.Receiving.{try_dequeue_refines_chain}

module _ {ℓ} {A : Type ℓ} where
  unfoldable pub dequeue : ℕ → (Queue A → Option (Queue A)) → Queue A → Option (Option A × Queue A)
  dequeue zero meanwhile q = none
  dequeue (suc fuel) meanwhile q = elim (try_dequeue q) [
    | none ↦ none
    | some (answer, q') ↦ elim answer [
      | ok x ↦ some (some x, q')
      | err e ↦ elim e [
        | DequeueError.empty ↦ elim (meanwhile q') [
          | none ↦ none
          | some q'' ↦ dequeue fuel meanwhile q''
        ]
        | DequeueError.closed ↦ some (none, q')
      ]
    ]
  ]

  -- The sender sends `x` in between, or leaves.
  abbrev pub sender_sends : A → Queue A → Option (Queue A)
  sender_sends x q = do (answer, q') ← enqueue q x; some q'

  abbrev pub sender_leaves : Queue A → Option (Queue A)
  sender_leaves q = drop_sender 0 q

  -- A waiting receive returns at once with the first item of a queue that has one, and with nothing from
  -- an empty one whose sender is gone. From an empty open one it returns in the second round, with
  -- the item that is sent meanwhile, or with nothing where the sender leaves meanwhile.
  pub dequeue_lem_chain :
      {n : ℕ} {q : Queue A} (gone : Bool) (items : List A) (fuel : ℕ) (x : A)
      → Contains n gone items q
      → ((q' : Queue A) × (dequeue (suc (suc fuel)) (sender_sends x) q
            ≡ some (elim items [ [] ↦ if gone then none else some x | y ∷ rest ↦ some y ], q')))
        × ((q' : Queue A) × (dequeue (suc (suc fuel)) sender_leaves q
              ≡ some (elim items [ [] ↦ none | y ∷ rest ↦ some y ], q')))
  unfolding dequeue
  dequeue_lem_chain gone (y ∷ rest) fuel x c =
      let (q1, e, c1) = try_dequeue_refines_chain c in
      ((q1, rw (e, dequeue) refl), (q1, rw (e, dequeue) refl))
  dequeue_lem_chain true [] fuel x c =
      let (q1, e, c1) = try_dequeue_refines_chain c in
      ((q1, rw (e, dequeue) refl), (q1, rw (e, dequeue) refl))
  dequeue_lem_chain false [] fuel x c =
      let (q1, e, c1) = try_dequeue_refines_chain c in
      let (q2, f, c2) = enqueue_refines_open x c1 in
      let (q3, g, c3) = try_dequeue_refines_chain c2 in
      let (q4, h, c4) = drop_sender_refines 0 c1 in
      let (q5, k, c5) = try_dequeue_refines_chain c4 in
      ((q3, rw (e, dequeue, f, g) refl), (q5, rw (e, dequeue, h, k) refl))
