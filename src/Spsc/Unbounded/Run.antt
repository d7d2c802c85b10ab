-- ===== src/Spsc/Unbounded/Run.antt =====
-- Any sequence of sends, receives and drops of the sender on the chain of buffers, with what each call
-- returns.
use nolock.Prelude.{
  ◌≡◌, refl, Bool, true, false, Option, some, List, [], ◌∷◌, ◌++◌, ◌>>=◌, Result, ok, err,
}
use nolock.Queues.{EnqueueError, DequeueError}
use nolock.Spsc.Bounded.Fifo
use nolock.Spsc.Unbounded.{Queue, queue, enqueue, try_dequeue, drop_sender}
use nolock.Spsc.Unbounded.Repr.{Contains}
use nolock.Spsc.Unbounded.Sending.{queue-Contains}
use nolock.Spsc.Unbounded.Refine.{enqueue_refines_open, enqueue_refines_gone, drop_sender_refines}
use nolock.Spsc.Unbounded.Receiving.{try_dequeue_refines_chain}

pub data Op {ℓ} (A : Type ℓ) : Type ℓ where
  send : A → Op A
  receive : Op A

pub data Reply {ℓ} (A : Type ℓ) : Type ℓ where
  sent : Result (Unit {0}) (A × EnqueueError) → Reply A
  received : Result A DequeueError → Reply A

module _ {ℓ} {A : Type ℓ} where
  unfoldable pub run : List (Op A) → Queue A → Option (List (Reply A) × Queue A)
  run [] q = some ([], q)
  run (send x ∷ ops) q = do (a, q1) ← enqueue q x; (rest, q2) ← run ops q1; some (sent a ∷ rest, q2)
  run (receive ∷ ops) q = do
    (a, q1) ← try_dequeue q
    (rest, q2) ← run ops q1
    some (received a ∷ rest, q2)

  -- The calls `ops`, then the drop of the sender, then the calls `later`.
  unfoldable pub run_leave : List (Op A) → List (Op A) → Queue A → Option (List (Reply A))
  run_leave ops later q = do
    (before, q1) ← run ops q
    q2 ← drop_sender 0 q1
    (after, q3) ← run later q2
    some (before ++ after)

  -- An unbounded FIFO, closed or not.
  abbrev pub push : Bool → List A → A → Result (Unit {0}) (A × EnqueueError) × List A
  push false items x = (ok tt, items ++ (x ∷ []))
  push true items x = (err (x, EnqueueError.closed), items)

  abbrev pub pop : Bool → List A → Result A DequeueError × List A
  pop gone items = let r = Fifo.pop (record { items = items; closed = gone }) in (r.0, r.1.items)

  -- The same calls on it.
  pub replies : Bool → List (Op A) → List A → List (Reply A) × List A
  replies gone [] items = ([], items)
  replies gone (send x ∷ ops) items =
      let next = push gone items x in
      let rest = replies gone ops next.1 in (sent next.0 ∷ rest.0, rest.1)
  replies gone (receive ∷ ops) items =
      let next = pop gone items in
      let rest = replies gone ops next.1 in (received next.0 ∷ rest.0, rest.1)

  abbrev Ran : Bool → List (Op A) → List A → Queue A → Type ℓ
  Ran gone ops items q =
      (q' : Queue A) × (run ops q ≡ some ((replies gone ops items).0, q'))
      × Contains 64 gone (replies gone ops items).1 q'

  run-Contains :
      (gone : Bool) (ops : List (Op A)) {items : List A} {q : Queue A}
      → Contains 64 gone items q
      → Ran gone ops items q
  unfolding run replies
  run-Contains gone [] {items} {q} c = (q, refl, c)
  run-Contains true (send x ∷ ops) {items} {q} c =
      let (q2, f, c2) = run-Contains true ops c in (q2, rw (enqueue_refines_gone x c, f) refl, c2)
  run-Contains false (send x ∷ ops) c =
      let (q1, e, c1) = enqueue_refines_open x c in
      let (q2, f, c2) = run-Contains false ops c1 in (q2, rw (e, f) refl, c2)
  run-Contains gone (receive ∷ ops) c =
      let (q1, e, c1) = try_dequeue_refines_chain c in
      let (q2, f, c2) = run-Contains gone ops c1 in (q2, rw (e, f) refl, c2)

  -- Any sequence of sends and receives on a new queue, then the drop of the sender, then any sequence
  -- again, faults nowhere and panics nowhere, however many buffers are made, and answers as an
  -- unbounded FIFO does: every send before the drop succeeds, every later one gives its item back,
  -- and the receiver is told that the queue is closed only when it has all items.
  pub run-leave :
      (ops later : List (Op A))
      → run_leave ops later queue
        ≡ some ((replies false ops []).0 ++ (replies true later (replies false ops []).1).0)
  unfolding run_leave
  run-leave ops later =
      let (q1, e, c1) = run-Contains false ops queue-Contains in
      let (q2, f, c2) = drop_sender_refines 0 c1 in
      let (q3, g, c3) = run-Contains true later c2 in rw (e, f, g) refl
