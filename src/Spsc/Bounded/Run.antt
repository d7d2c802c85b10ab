-- ===== src/Spsc/Bounded/Run.antt =====
-- Any sequence of calls on a bounded queue, with what each call returns.
use nolock.Prelude.{ℕ, ◌^◌, ◌<◌, ◌≡◌, refl, true, false, Option, some, List, [], ◌∷◌, ◌>>=◌}
use nolock.Spsc.Bounded.{
  Channel, EnqueueResult, DequeueResult, queue, try_enqueue, try_dequeue, close,
}
use nolock.Spsc.Bounded.Fifo
use nolock.Spsc.Bounded.Fifo.{Fifo}
use nolock.Spsc.Bounded.Refine.{
  Represents, queue-Represents, try_enqueue_refines, try_dequeue_refines, close-Represents,
}

-- What the owners of the halves do; `leave` is the drop of either half.
pub data Op {ℓ} (A : Type ℓ) : Type ℓ where
  send : A → Op A
  receive : Op A
  leave : Op A

pub data Reply {ℓ} (A : Type ℓ) : Type ℓ where
  sent : EnqueueResult A → Reply A
  received : DequeueResult A → Reply A
  left : Reply A

module _ {ℓ} {A : Type ℓ} where
  unfoldable pub run : List (Op A) → Channel A → Option (List (Reply A))
  run [] s = some []
  run (send x ∷ ops) s = do (a, s') ← try_enqueue s x; rest ← run ops s'; some (sent a ∷ rest)
  run (receive ∷ ops) s = do (a, s') ← try_dequeue s; rest ← run ops s'; some (received a ∷ rest)
  run (leave ∷ ops) s = do rest ← run ops (close s); some (left ∷ rest)

  -- The same calls on the FIFO.
  pub replies : ℕ → List (Op A) → Fifo A → List (Reply A)
  replies n [] q = []
  replies n (send x ∷ ops) q = let (a, q') = Fifo.push n q x in sent a ∷ replies n ops q'
  replies n (receive ∷ ops) q = let (a, q') = Fifo.pop q in received a ∷ replies n ops q'
  replies n (leave ∷ ops) q = left ∷ replies n ops (record q { closed = true })

  run-Represents :
      {n : ℕ} (ops : List (Op A)) {q : Fifo A} {s : Channel A}
      → Represents n q s
      → run ops s ≡ some (replies n ops q)
  unfolding run replies
  run-Represents [] r = refl
  run-Represents (send x ∷ ops) r =
      let (s', e, r') = try_enqueue_refines r x in rw (e, run-Represents ops r')
  run-Represents (receive ∷ ops) r =
      let (s', e, r') = try_dequeue_refines r in rw (e, run-Represents ops r')
  run-Represents (leave ∷ ops) r = rw (run-Represents ops (close-Represents r))

  -- On a new queue with room for at least one item, no sequence of sends, receives and drops
  -- faults, and every call returns what a bounded FIFO of that capacity returns.
  pub run_refines :
      (n : ℕ) (ops : List (Op A))
      → 0 < n
      → n < 2 ^ 64
      → run ops (queue n) ≡ some (replies n ops (record { items = []; closed = false }))
  run_refines n ops pos within = run-Represents ops (queue-Represents n pos within)
