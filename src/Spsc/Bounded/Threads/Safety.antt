-- ===== src/Spsc/Bounded/Threads/Safety.antt =====
-- What holds in every state that the two threads of a bounded queue can reach.
use nolock.Prelude.{
  ℕ, zero, suc, ◌^◌, ◌<◌, ◌≤◌, ◌≡◌, refl, sym, Bool, if-ne, ◌∙◌, ap, subst, Option, some, List, [],
  ◌++◌, length, arith, err, get_elem?-replicate, length-replicate, mod-cases, append-nil,
}
use nolock.Queues.{DequeueError}
use nolock.Spsc.Node
use nolock.Spsc.Bounded.{queue}
use nolock.Spsc.Bounded.Threads.{
  Producer, Consumer, System, Choice, Step, by_producer, by_consumer, Reach, start, later, produce,
  consume, init,
}
use nolock.Spsc.Bounded.Threads.Inv.{expected, Inv}
use nolock.Spsc.Bounded.Threads.Steps.{Keeps}
use nolock.Spsc.Bounded.Threads.Producing.{produce-Keeps}
use nolock.Spsc.Bounded.Threads.Consuming.{consume-Keeps}

module _ {ℓ} {A : Type ℓ} where
  blank : (i : ℕ) → Node.new ≡ expected {A = A} [] Producer.resting Consumer.resting i
  blank zero = refl
  blank (suc i) =
      sym (if-ne (suc i) 0 Node.new (omega arith) ∙ if-ne (suc i) 0 Node.new (omega arith))

  init-Inv : (n : ℕ) → 0 < n → n < 2 ^ 64 → Inv n [] (init {A = A} n)
  unfolding init queue
  init-Inv n pos within = record {
    slots = record {
      size = length-replicate n _;
      start = pos;
      at = λ i lt.
          get_elem?-replicate n _ _ (omega (arith, mod-cases n 0 i pos)) ∙ ap some (blank i);
    };
    head_at = omega (arith, mod-cases n 0 0 pos);
    fits = omega arith;
    within = within;
    history = refl;
    producer_ok = tt;
    consumer_ok = tt;
    who_closed = λ e. cc;
    while_closing = λ e. cc;
    at_end = λ e. cc;
  }

  Keeps-step :
      {n : ℕ} {o : Option (System A)} {t : System A}
      → Keeps n o
      → o ≡ some t
      → (q : List A) × Inv n q t
  Keeps-step {n} (t', q, e, h) e' = (q, subst (λ u. Inv n q u) (cc (e, e')) h)

  Step-Inv :
      {n : ℕ} {q : List A} {s t : System A} → Inv n q s → Step s t → (q' : List A) × Inv n q' t
  Step-Inv {s} h (by_producer c e) = Keeps-step (produce-Keeps c s.producer s h) e
  Step-Inv {q} {s} h (by_consumer leaves e) = Keeps-step (consume-Keeps q leaves s.consumer s h) e

  module _ {n : ℕ} (pos : 0 < n) (within : n < 2 ^ 64) where
    pub Reach-Inv : {s : System A} → Reach n s → (q : List A) × Inv n q s
    Reach-Inv start = ([], init-Inv n pos within)
    Reach-Inv (later r st) = let (q, h) = Reach-Inv r in Step-Inv h st

    -- Whatever the two threads have done, on a queue with room for at least one item and fewer than
    -- 2 ^ 64, the next access of either one is inside the buffer, and the consumer's `unwrap` finds
    -- an item.
    pub no_fault :
        {s : System A}
        → Reach n s
        → (c : Choice A) (leaves : Bool)
        → ((t : System A) × (produce c s.producer s ≡ some t))
          × ((t : System A) × (consume leaves s.consumer s ≡ some t))
    no_fault {s} r c leaves =
        let (q, h) = Reach-Inv r in
        let (t, q', e, k) = produce-Keeps c s.producer s h in
        let (u, q'', e', k') = consume-Keeps q leaves s.consumer s h in ((t, e), (u, e'))

    -- The consumer has got a prefix of what the producer has sent, in the same order, with nothing
    -- lost or doubled, and at most `n` items lie between.
    pub first_in_first_out :
        {s : System A} → Reach n s → (q : List A) × (s.sent ≡ s.got ++ q) × (length q ≤ n)
    first_in_first_out r = let (q, h) = Reach-Inv r in (q, h.history, h.fits)

    -- Where the last answer of `try_dequeue` was `Closed`, the producer is gone and everything that
    -- it sent has been received.
    pub closed_when_drained :
        {s : System A}
        → Reach n s
        → s.last ≡ some (err DequeueError.closed)
        → (s.producer ≡ Producer.gone) × (s.sent ≡ s.got)
    closed_when_drained {s} r e =
        let (q, h) = Reach-Inv r in
        let (g, none_left) = h.at_end e in
        (g, h.history ∙ ap (λ l. s.got ++ l) none_left ∙ append-nil s.got)
