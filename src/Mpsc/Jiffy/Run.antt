-- ===== src/Mpsc/Jiffy/Run.antt =====
-- Any sequence of calls on a queue of src/queues/mpsc/jiffy.rs, with what each call returns, up to the drop of the
-- second half.
use nolock.Prelude.{
  ℕ, suc, ◌+◌, ◌-◌, ◌*◌, ◌^◌, ◌<◌, ◌≤◌, ◌≡◌, refl, sym, ◌∙◌, ap, subst, Bool, true, false, Option,
  none, some, List, [], ◌∷◌, ◌++◌, length, arith, ok, err, if◌then◌else◌, Result, ◌>>=◌,
  get_elem?-none, get_elem?-replicate, length-replicate, length-append,
}
use nolock.Queues.{EnqueueError, DequeueError}
use nolock.Mpsc.Node
use nolock.Mpsc.BufferList.{boxed}
use nolock.Mpsc.Jiffy.{Channel, queue, enqueue, try_dequeue, drop_sender, drop_receiver}
use nolock.Mpsc.Jiffy.Holds.{node_for, Holds}
use nolock.Mpsc.Jiffy.Sending.{enqueue-Holds}
use nolock.Mpsc.Jiffy.Receiving.{try_dequeue_first}
use nolock.Mpsc.Jiffy.Empty.{try_dequeue_empty}

-- What the owners of the halves do, where the flags say whether the receiver and the sender are there.
pub data Script {ℓ} (A : Type ℓ) : Bool → Bool → Type ℓ where
  done : {rx tx : Bool} → Script A rx tx
  send : {rx : Bool} → A → Script A rx true → Script A rx true
  receive : {tx : Bool} → Script A true tx → Script A true tx
  sender_leaves : Script A true false → Script A true true
  receiver_leaves : Script A false true → Script A true true

pub data Reply {ℓ} (A : Type ℓ) : Type ℓ where
  sent : Result (Unit {0}) (A × EnqueueError) → Reply A
  received : Result A DequeueError → Reply A
  left : Reply A

module _ {ℓ} {A : Type ℓ} where
  abbrev pub calls : {rx tx : Bool} → Script A rx tx → ℕ
  calls done = 0
  calls (send x ops) = suc (calls ops)
  calls (receive ops) = suc (calls ops)
  calls (sender_leaves ops) = calls ops
  calls (receiver_leaves ops) = calls ops

  -- What an unbounded FIFO returns for the calls.
  pub replies : {rx tx : Bool} → Script A rx tx → List A → List (Reply A)
  replies done l = []
  replies {rx = true} (send x ops) l = sent (ok tt) ∷ replies ops (l ++ (x ∷ []))
  replies {rx = false} (send x ops) l = sent (err (x, EnqueueError.closed)) ∷ replies ops l
  replies (receive ops) (x ∷ l) = received (ok x) ∷ replies ops l
  replies {tx = true} (receive ops) [] = received (err DequeueError.empty) ∷ replies ops []
  replies {tx = false} (receive ops) [] = received (err DequeueError.closed) ∷ replies ops []
  replies (sender_leaves ops) l = left ∷ replies ops l
  replies (receiver_leaves ops) l = left ∷ replies ops l

module _ (size : ℕ) where
  module _ {ℓ} {A : Type ℓ} where
    unfoldable pub run : ℕ → {rx tx : Bool} → Script A rx tx → Channel A → Option (List (Reply A))
    run fuel done s = some []
    run fuel (send x ops) s = do
      (a, s') ← enqueue size fuel s x
      rest ← run fuel ops s'
      some (sent a ∷ rest)
    run fuel (receive ops) s = do
      (a, s') ← try_dequeue size fuel s
      rest ← run fuel ops s'
      some (received a ∷ rest)
    run fuel (sender_leaves ops) s = do
      s' ← drop_sender s
      rest ← run fuel ops s'
      some (left ∷ rest)
    run fuel (receiver_leaves ops) s = do
      s' ← drop_receiver s
      rest ← run fuel ops s'
      some (left ∷ rest)

    queue-Holds : 3 ≤ size → Holds size 0 0 [] (queue size {A = A})
    unfolding queue boxed Node.new Node.to_u8
    queue-Holds big = record {
      tail_at = refl;
      head_at = refl;
      last_at = refl;
      reach = omega arith;
      near = omega arith;
      from = omega arith;
      to = omega arith;
      layout = record {
        head_in = omega arith;
        buffers = λ p lo hi.
            let here : p ≡ 0 = omega arith in
            (
              boxed size none 1,
              rw here refl,
              record {
                position = omega arith;
                first = λ e. refl;
                behind = λ q e le. absurd (omega arith);
                last = λ e. refl;
                before = λ lt. absurd (omega arith);
                entries = length-replicate size Node.new;
                head_first = λ e. omega (arith, ap (λ k. k * size) e);
                head_later = λ ne. absurd (ne here);
                nodes = λ j lt le.
                    get_elem?-replicate size j Node.new lt
                    ∙ ap (λ o. some (node_for o))
                        (sym (get_elem?-none {A = A} [] (p * size + j - 0) (omega arith)));
              },
            );
      };
    }

    -- A drop of the first half only closes the queue.
    closed-Holds :
        {c hb : ℕ} {l : List A} {s : Channel A}
        → Holds size c hb l s
        → Holds size c hb l (record s { closed = true })
    closed-Holds h = record {
      tail_at = h.tail_at;
      head_at = h.head_at;
      last_at = h.last_at;
      reach = h.reach;
      near = h.near;
      from = h.from;
      to = h.to;
      layout = h.layout;
    }

    drop_sender_first :
        (s : Channel A) → s.closed ≡ false → drop_sender s ≡ some (record s { closed = true })
    unfolding drop_sender
    drop_sender_first s e = rw e refl

    drop_receiver_first :
        (s : Channel A) → s.closed ≡ false → drop_receiver s ≡ some (record s { closed = true })
    unfolding drop_receiver
    drop_receiver_first s e = rw e refl

    enqueue_shut :
        (fuel : ℕ) (s : Channel A) (x : A)
        → s.closed ≡ true
        → enqueue size fuel s x ≡ some (err (x, EnqueueError.closed), s)
    unfolding enqueue
    enqueue_shut fuel s x e = rw (enqueue, e) refl

    at_head :
        {c hb : ℕ} {l : List A} {s : Channel A}
        → Holds size c hb l s
        → Holds size c s.head_of_queue l s
    at_head {c} {hb} {l} {s} h = subst (λ p. Holds size c p l s) (sym h.head_at) h

    -- With the receiver gone, every send gives its item back.
    run_shut :
        (fuel : ℕ) (ops : Script A false true) (l : List A) (s : Channel A)
        → s.closed ≡ true
        → run fuel ops s ≡ some (replies ops l)
    unfolding run replies
    run_shut fuel done l s e = refl
    run_shut fuel (send x ops) l s e = rw (enqueue_shut fuel s x e, run_shut fuel ops l s e) refl

    module _ (big : 3 ≤ size) (fuel : ℕ) (enough : size * 2 < suc (suc fuel)) where
      -- A receive once the sender is gone, or before it.
      receive_empty :
          (closed : Bool) {c hb : ℕ} {s : Channel A}
          → Holds size c hb [] s
          → s.closed ≡ closed
          → try_dequeue size (suc (suc fuel)) s
            ≡ some (if closed then err DequeueError.closed else err DequeueError.empty, s)
      receive_empty closed {s = s} h e =
          try_dequeue_empty size (suc fuel) s (omega arith) (at_head h) enough
          ∙ ap (λ b. some (if b then err DequeueError.closed else err DequeueError.empty, s)) e

      -- Once the sender is gone, the items that are left are received in order, and then the queue is closed.
      run_left :
          (ops : Script A true false) (l : List A) {c hb : ℕ} {s : Channel A}
          → Holds size c hb l s
          → s.closed ≡ true
          → run (suc (suc fuel)) ops s ≡ some (replies ops l)
      unfolding run replies
      run_left done l h e = refl
      run_left (receive ops) [] h e = rw (receive_empty true h e, run_left ops [] h e) refl
      run_left (receive ops) (x ∷ l) h e =
          let (s', hb', answer, kept, h') = try_dequeue_first big (suc fuel) (at_head h) in
          rw (answer, run_left ops l h' (kept ∙ e)) refl

      run_open :
          (ops : Script A true true) (l : List A) {c hb : ℕ} {s : Channel A}
          → Holds size c hb l s
          → s.closed ≡ false
          → c + length l + calls ops < 2 ^ 64
          → run (suc (suc fuel)) ops s ≡ some (replies ops l)
      unfolding run replies
      run_open done l h e few = refl
      run_open (send x ops) l {c} {s = s} h e few =
          let (s', answer, still, h') = enqueue-Holds big fuel s x h e (omega arith) in
          rw
            (
              answer,
              run_open ops (l ++ (x ∷ [])) h' still (omega (arith, length-append l (x ∷ []))),
            )
            refl
      run_open (receive ops) [] h e few =
          rw (receive_empty false h e, run_open ops [] h e (omega arith)) refl
      run_open (receive ops) (x ∷ l) h e few =
          let (s', hb', answer, kept, h') = try_dequeue_first big (suc fuel) (at_head h) in
          rw (answer, run_open ops l h' (kept ∙ e) (omega arith)) refl
      run_open (sender_leaves ops) l {s = s} h e few =
          rw (drop_sender_first s e, run_left ops l (closed-Holds h) refl) refl
      run_open (receiver_leaves ops) l {s = s} h e few =
          rw
            (
              drop_receiver_first s e,
              run_shut (suc (suc fuel)) ops l (record s { closed = true }) refl,
            )
            refl

      -- From the new queue on, with buffers of at least three entries, loops of more than two buffers' rounds and
      -- fewer calls than the counter has values, every call returns what an unbounded FIFO
      -- returns, and none panics or touches a freed buffer.
      pub run-queue_jiffy :
          (ops : Script A true true)
          → calls ops < 2 ^ 64
          → run (suc (suc fuel)) ops (queue size) ≡ some (replies ops [])
      unfolding queue
      run-queue_jiffy ops few = run_open ops [] (queue-Holds big) refl (omega arith)
