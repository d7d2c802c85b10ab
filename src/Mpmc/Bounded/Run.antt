-- ===== src/Mpmc/Bounded/Run.antt =====
-- Any sequence of calls on the two halves of a bounded queue, with what each call returns.
use nolock.Prelude.{
  ℕ, suc, zero, ◌+◌, ◌^◌, ◌≤◌, ◌≡◌, refl, true, false, Bool, Option, some, List, [], ◌∷◌, ◌>>=◌,
  Result, ◌∙◌, arith,
}
use nolock.Queues.{EnqueueError, DequeueError}
use nolock.Mpmc.Underlying.{UnderlyingQueue}
use nolock.Mpmc.Bounded.{Channel, queue, try_enqueue, try_dequeue, drop_sender, drop_receiver}
use nolock.Mpmc.Bounded.Spec
use nolock.Mpmc.Bounded.Spec.{Fifo}
use nolock.Mpmc.Bounded.Refine.{Stands, queue-Stands, try_enqueue_refines, try_dequeue_refines}

-- What the owners of the halves do, where the two flags say which halves are still there: a half
-- that was dropped is not used again.
pub data Script {ℓ} (A : Type ℓ) : Bool → Bool → Type ℓ where
  done : {rx tx : Bool} → Script A rx tx
  send : {rx : Bool} → A → Script A rx true → Script A rx true
  receive : {tx : Bool} → Script A true tx → Script A true tx
  sender_leaves : {rx : Bool} → Script A rx false → Script A rx true
  receiver_leaves : {tx : Bool} → Script A false tx → Script A true tx

pub data Reply {ℓ} (A : Type ℓ) : Type ℓ where
  sent : Result (Unit {0}) (EnqueueError × A) → Reply A
  received : Result A DequeueError → Reply A
  left : Reply A

module _ {ℓ} {A : Type ℓ} where
  abbrev pub calls : {rx tx : Bool} → Script A rx tx → ℕ
  calls done = 0
  calls (send x ops) = suc (calls ops)
  calls (receive ops) = suc (calls ops)
  calls (sender_leaves ops) = calls ops
  calls (receiver_leaves ops) = calls ops

  -- The same calls on the FIFO.
  pub replies : ℕ → {rx tx : Bool} → Script A rx tx → Fifo A → List (Reply A)
  replies n done q = []
  replies n (send x ops) q = let (a, q') = Spec.push n q x in sent a ∷ replies n ops q'
  replies n (receive ops) q = let (a, q') = Spec.pop q in received a ∷ replies n ops q'
  replies n (sender_leaves ops) q = left ∷ replies n ops (record q { sender = false })
  replies n (receiver_leaves ops) q = left ∷ replies n ops (record q { receiver = false })

module _ (u : UnderlyingQueue) where
  open u use {Queue, Holds}

  module _ {ℓ} {A : Type ℓ} where
    unfoldable pub run : {rx tx : Bool} → Script A rx tx → Channel Queue A → Option (List (Reply A))
    run done s = some []
    run (send x ops) s = do (a, s') ← try_enqueue u s x; rest ← run ops s'; some (sent a ∷ rest)
    run (receive ops) s = do (a, s') ← try_dequeue u s; rest ← run ops s'; some (received a ∷ rest)
    run (sender_leaves ops) s = do rest ← run ops (drop_sender u s); some (left ∷ rest)
    run (receiver_leaves ops) s = do rest ← run ops (drop_receiver u s); some (left ∷ rest)

    drop_sender-Stands :
        {n k : ℕ} {q : Fifo A} {s : Channel Queue A}
        → Stands u n k q s
        → q.sender ≡ true
        → Stands u n k (record q { sender = false }) (drop_sender u s)
    unfolding drop_sender
    drop_sender-Stands (used, free, r) here = (
      used,
      free,
      record {
        aq_holds = r.aq_holds;
        fq_holds = r.fq_holds;
        distinct = r.distinct;
        as_many = r.as_many;
        size = r.size;
        within = r.within;
        receiver_count = r.receiver_count;
        sender_count = rw (r.sender_count, here) refl;
        stored = r.stored;
      },
    )

    drop_receiver-Stands :
        {n k : ℕ} {q : Fifo A} {s : Channel Queue A}
        → Stands u n k q s
        → q.receiver ≡ true
        → Stands u n k (record q { receiver = false }) (drop_receiver u s)
    unfolding drop_receiver
    drop_receiver-Stands (used, free, r) here = (
      used,
      free,
      record {
        aq_holds = r.aq_holds;
        fq_holds = r.fq_holds;
        distinct = r.distinct;
        as_many = r.as_many;
        size = r.size;
        within = r.within;
        receiver_count = rw (r.receiver_count, here) refl;
        sender_count = r.sender_count;
        stored = r.stored;
      },
    )

    run-Stands :
        {n : ℕ} {rx tx : Bool} (k : ℕ) (ops : Script A rx tx) {q : Fifo A} {s : Channel Queue A}
        → Stands u n k q s
        → calls ops ≤ k
        → q.receiver ≡ rx
        → q.sender ≡ tx
        → run ops s ≡ some (replies n ops q)
    unfolding run replies
    run-Stands k done st enough er es = refl
    run-Stands zero (send x ops) st enough er es = absurd (omega arith)
    run-Stands {n} (suc k) (send x ops) {q} st enough er es =
        let (s', e, st') = try_enqueue_refines u x st in
        let (kr, ks) = Spec.push_keeps n q x in
        rw (e, run-Stands k ops st' (omega arith) (kr ∙ er) (ks ∙ es)) refl
    run-Stands zero (receive ops) st enough er es = absurd (omega arith)
    run-Stands (suc k) (receive ops) {q} st enough er es =
        let (s', e, st') = try_dequeue_refines u st in
        let (kr, ks) = Spec.pop_keeps q in
        rw (e, run-Stands k ops st' (omega arith) (kr ∙ er) (ks ∙ es)) refl
    run-Stands k (sender_leaves ops) st enough er es =
        rw (run-Stands k ops (drop_sender-Stands st es) enough er refl) refl
    run-Stands k (receiver_leaves ops) st enough er es =
        rw (run-Stands k ops (drop_receiver-Stands st er) enough refl es) refl

    -- Made of two empty index queues that have room for `n` indices, and whose counters last for the
    -- calls, a bounded queue answers every call as a bounded FIFO of that capacity does, and no
    -- call panics or reads an entry that was not written.
    pub bounded_run_refines :
        (n : ℕ) (ops : Script A true true) (aq fq : Queue)
        → n ≤ 2 ^ 32
        → Holds n (calls ops) [] aq
        → Holds n (n + calls ops) [] fq
        → (queue u aq fq n >>= run ops)
          ≡ some (replies n ops (record { items = []; receiver = true; sender = true }))
    bounded_run_refines n ops aq fq within ha hf =
        let (s, e, st) = queue-Stands u {A = A} n (calls ops) aq fq within ha hf in
        rw e (run-Stands (calls ops) ops st (omega arith) refl refl)
