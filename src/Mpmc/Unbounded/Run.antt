-- ===== src/Mpmc/Unbounded/Run.antt =====
-- Any sequence of calls on the two halves of the queue of src/queues/mpmc/unbounded.rs.
use nolock.Prelude.{
  ℕ, zero, suc, ◌+◌, ◌*◌, ◌^◌, ◌<◌, ◌≤◌, ◌≡◌, refl, Bool, true, false, Option, some, List, [], ◌∷◌,
  ◌++◌, arith, ok, err, Result, ◌>>=◌,
}
use nolock.Queues.{DequeueError}
use nolock.Mpmc.Bounded.Run.{Script, done, send, receive, sender_leaves, receiver_leaves, calls}
use nolock.Mpmc.Unbounded.{Channel, queue, enqueue, try_dequeue, drop_sender, drop_receiver}
use nolock.Mpmc.Unbounded.Standing.{
  Stands, queue-Stands, enqueue-Stands, try_dequeue-Stands, drop_sender-Stands,
  drop_receiver-Stands,
}
use nolock.Mpmc.Unbounded.Receiving.{taken, remaining}

pub data Reply {ℓ} (A : Type ℓ) : Type ℓ where
  sent : Result (Unit {0}) A → Reply A
  received : Result A DequeueError → Reply A
  left : Reply A

module _ {ℓ} {A : Type ℓ} where
  -- The same calls on a list of items: a send fails once the receiver has left, and a receive is told that
  -- the queue is closed once the sender has left, whatever items are there.
  unfoldable pub replies : {rx tx : Bool} → Script A rx tx → List A → List (Reply A)
  replies done l = []
  replies {rx = true} (send x ops) l = sent (ok tt) ∷ replies ops (l ++ (x ∷ []))
  replies {rx = false} (send x ops) l = sent (err x) ∷ replies ops l
  replies {tx = true} (receive ops) l = received (taken l) ∷ replies ops (remaining l)
  replies {tx = false} (receive ops) l = received (err DequeueError.closed) ∷ replies ops l
  replies (sender_leaves ops) l = left ∷ replies ops l
  replies (receiver_leaves ops) l = left ∷ replies ops l

  -- The calls on a channel with buffers of `n` places.
  unfoldable pub run :
      ℕ → ℕ → ℕ → {rx tx : Bool} → Script A rx tx → Channel A → Option (List (Reply A))
  run n fuel r done s = some []
  run n fuel r (send x ops) s = do
    (a, s') ← enqueue n fuel r s x
    rest ← run n fuel r ops s'
    some (sent a ∷ rest)
  run n fuel r (receive ops) s = do
    (a, s') ← try_dequeue n fuel r s
    rest ← run n fuel r ops s'
    some (received a ∷ rest)
  run n fuel r (sender_leaves ops) s = do
    rest ← run n fuel r ops (drop_sender s)
    some (left ∷ rest)
  run n fuel r (receiver_leaves ops) s = do
    s' ← drop_receiver s
    rest ← run n fuel r ops s'
    some (left ∷ rest)

module _ {n : ℕ} (pos : 0 < n) (size : n ≤ 2 ^ 30) {f : ℕ} (rounds : f ≤ 2 ^ 61)
    (many : n * 3 ≤ suc (suc f)) where
  module _ {ℓ} {A : Type ℓ} where
    run-Stands :
        {rx tx : Bool} (r : ℕ) (ops : Script A rx tx) (k : ℕ) (l : List A) {s : Channel A}
        → n * 9 + k + 2 < 2 ^ 31 * (n * 2)
        → Stands n k rx tx l s
        → calls ops ≤ k
        → run n (suc (suc f)) (suc (suc r)) ops s ≡ some (replies ops l)
    unfolding run replies
    run-Stands r done k l budget st enough = refl
    run-Stands r (send x ops) zero l budget st enough = absurd (omega arith)
    run-Stands {rx = true} r (send x ops) (suc k) l budget st enough =
        let (s', e, st') = enqueue-Stands pos size rounds many true (suc r) x (omega arith) st in
        rw (e, run-Stands r ops k (l ++ (x ∷ [])) (omega arith) st' (omega arith)) refl
    run-Stands {rx = false} r (send x ops) (suc k) l budget st enough =
        let (s', e, st') = enqueue-Stands pos size rounds many false (suc r) x (omega arith) st in
        rw (e, run-Stands r ops k l (omega arith) st' (omega arith)) refl
    run-Stands r (receive ops) zero l budget st enough = absurd (omega arith)
    run-Stands {tx = true} r (receive ops) (suc k) l budget st enough =
        let (s', e, st') = try_dequeue-Stands pos size rounds many true r st in
        rw (e, run-Stands r ops k (remaining l) (omega arith) st' (omega arith)) refl
    run-Stands {tx = false} r (receive ops) (suc k) l budget st enough =
        let (s', e, st') = try_dequeue-Stands pos size rounds many false r st in
        rw (e, run-Stands r ops k l (omega arith) st' (omega arith)) refl
    run-Stands r (sender_leaves ops) k l budget st enough =
        rw (run-Stands r ops k l budget (drop_sender-Stands refl st) enough) refl
    run-Stands r (receiver_leaves ops) k l budget st enough =
        let (s', e, st', gone) = drop_receiver-Stands refl st in
        rw (e, run-Stands r ops k l budget st' enough) refl

    -- Any calls on a new unbounded queue, drops of the halves included, fault nowhere, read no field of a buffer
    -- that was retired, make a reference to one only where it is the last that was retired, and answer as a list
    -- of items does, however many buffers are made: with `n` places in a buffer, 0 < n ≤ 2 ^ 30, three rounds of
    -- fuel for each place and two more in the loops, as long as the counters of one buffer last for the calls.
    pub run-queue :
        (r : ℕ) (ops : Script A true true)
        → n * 9 + calls ops + 2 < 2 ^ 31 * (n * 2)
        → (queue n (suc (suc f)) >>= run n (suc (suc f)) (suc (suc r)) ops) ≡ some (replies ops [])
    run-queue r ops budget =
        let (s, e, st) = queue-Stands pos size rounds many {A = A} (calls ops) budget in
        rw e (run-Stands r ops (calls ops) [] budget st (omega arith))
