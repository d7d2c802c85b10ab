-- ===== src/Spsc/Nodes/Run.antt =====
-- Any sequence of sends and receives on the linked queue, with what each call returns.
use nolock.Prelude.{◌≡◌, refl, Option, some, List, [], ◌∷◌, ◌++◌, ◌>>=◌, Result, ok}
use nolock.Queues.{DequeueError}
use nolock.Spsc.Nodes.{Queue, new, enqueue, try_dequeue}
use nolock.Spsc.Nodes.Refine.{try_dequeue_refines_nodes, next_item, others}
use nolock.Spsc.Nodes.Sending.{Stands, new-Stands, enqueue_refines}

pub data Op {ℓ} (A : Type ℓ) : Type ℓ where
  send : A → Op A
  receive : Op A

pub data Reply {ℓ} (A : Type ℓ) : Type ℓ where
  sent : Result (Unit {0}) A → Reply A
  received : Result A DequeueError → Reply A

module _ {ℓ} {A : Type ℓ} where
  unfoldable pub run : List (Op A) → Queue A → Option (List (Reply A))
  run [] q = some []
  run (send x ∷ ops) q = do (a, q') ← enqueue q x; rest ← run ops q'; some (sent a ∷ rest)
  run (receive ∷ ops) q = do (a, q') ← try_dequeue q; rest ← run ops q'; some (received a ∷ rest)

  -- The same calls on a list.
  pub replies : List (Op A) → List A → List (Reply A)
  replies [] items = []
  replies (send x ∷ ops) items = sent (ok tt) ∷ replies ops (items ++ (x ∷ []))
  replies (receive ∷ ops) items = received (next_item items) ∷ replies ops (others items)

  run-Stands :
      (ops : List (Op A)) {items : List A} {q : Queue A}
      → Stands items q
      → run ops q ≡ some (replies ops items)
  unfolding run replies
  run-Stands [] st = refl
  run-Stands (send x ∷ ops) st =
      let (q', e, st') = enqueue_refines x st in rw (e, run-Stands ops st') refl
  run-Stands (receive ∷ ops) st =
      let (q', e, st') = try_dequeue_refines_nodes st in rw (e, run-Stands ops st') refl

  -- While both halves are there, any sequence of sends and receives on a new linked queue reads no
  -- dropped node, whichever nodes are used again, every send succeeds, and every receive gives what
  -- an unbounded FIFO gives.
  pub run-new : (ops : List (Op A)) → run ops new ≡ some (replies ops [])
  run-new ops = run-Stands ops new-Stands
