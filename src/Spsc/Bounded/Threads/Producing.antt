-- ===== src/Spsc/Bounded/Threads/Producing.antt =====
-- Each access of the producer keeps the invariant and does not fault.
use nolock.Prelude.{
  ℕ, ◌+◌, ◌%◌, ◌<◌, ◌≡◌, ◌≢◌, refl, sym, ◌∙◌, ap, ap₂, subst, false, some, List, [], ◌∷◌, ◌++◌, inl,
  inr, if◌then◌else◌, ◌==◌, length, set, arith, Bool-cases, length-append, length-set, append_assoc,
  ℕ_discrete,
}
use nolock.Spsc.Node
use nolock.Spsc.Node.{Node}
use nolock.Spsc.Bounded.{next_element}
use nolock.Spsc.Bounded.Slots.{Slots, Slots-ext, Slots-set}
use nolock.Spsc.Bounded.Threads.{
  Producer, opened, room, written, System, Choice, call, leave, produce,
}
use nolock.Spsc.Bounded.Threads.Inv.{behind, expected, ProducerOk, Inv}
use nolock.Spsc.Bounded.Threads.Steps.{
  Keeps, at_head, at_head_full, expected-append, ConsumerOk-append,
}
use nolock.Spsc.Bounded.Index.{next_element-add}

module _ {ℓ} {A : Type ℓ} {n : ℕ} {q : List A} where
  -- A move of the producer's place that leaves the shared entries alone.
  moved :
      (s : System A) (p p' : Producer A)
      → behind p ≡ behind p'
      → (p ≢ Producer.gone)
      → ProducerOk n (length q) p'
      → Inv n q (record s { producer = p })
      → Inv n q (record s { producer = p' })
  moved s p p' same here can h = record {
    slots = Slots-ext h.slots _ (λ i lt. ground (arith, same));
    head_at = h.head_at;
    fits = h.fits;
    within = h.within;
    history = h.history;
    producer_ok = can;
    consumer_ok = h.consumer_ok;
    who_closed = λ c. ground (arith, h.who_closed c);
    while_closing = λ c. absurd (here (h.while_closing c));
    at_end = λ e. absurd (here (h.at_end e).0);
  }

  -- The new item of the entry behind the last one, and the queue that it joins.
  behind-Slots :
      (s : System A) (p p' : Producer A) (v : Node A) (q' : List A)
      → Inv n q (record s { producer = p })
      → length q < n
      → ((i : ℕ)
          → i < n
          → (if i == length q then v else expected q p s.consumer i) ≡ expected q' p' s.consumer i)
      → Slots n s.chan.tail (expected q' p' s.consumer) (set s.chan.buffer s.chan.head v)
  behind-Slots s p p' v q' h lt e =
      subst (λ k. Slots n s.chan.tail (expected q' p' s.consumer) (set s.chan.buffer k v))
        (sym h.head_at) (Slots-ext (Slots-set h.slots (length q) v lt) _ e)

  advance :
      (s : System A) (p : Producer A)
      → Inv n q (record s { producer = p })
      → (x : A)
      → next_element s.chan.head (length s.chan.buffer) ≡ (s.chan.tail + length (q ++ (x ∷ []))) % n
  advance s p h x =
      ap₂ next_element h.head_at h.slots.size
      ∙ next_element-add n s.chan.tail (length q) (omega (arith, h.slots.start)) h.within
      ∙ ap (λ k. (s.chan.tail + k) % n) (omega (arith, length-append q (x ∷ [])))

  pub produce-Keeps :
      (c : Choice A) (p : Producer A) (s : System A)
      → Inv n q (record s { producer = p })
      → Keeps n (produce c p (record s { producer = p }))
  unfolding produce
  produce-Keeps (call x) Producer.resting s h = elim (Bool-cases s.chan.closed) [
    | inl c ↦ (record s { producer = Producer.resting }, q, simp c, h)
    | inr o ↦ (
      record s { producer = opened x },
      q,
      simp o,
      moved s Producer.resting (opened x) refl (λ e. cc) tt h,
    )
  ]
  produce-Keeps leave Producer.resting s h = (
    _,
    q,
    refl,
    record {
      slots = h.slots;
      head_at = h.head_at;
      fits = h.fits;
      within = h.within;
      history = h.history;
      producer_ok = tt;
      consumer_ok = h.consumer_ok;
      who_closed = λ _. inl refl;
      while_closing = λ _. refl;
      at_end = λ e. absurd (cc (h.at_end e).0);
    },
  )
  produce-Keeps c (opened x) s h = elim (ℕ_discrete (length q) n) [
    | yes e ↦
        let (entry, found, flag) = at_head_full q h e in
        (
          record s { producer = Producer.resting },
          q,
          simp (found, flag),
          moved s (opened x) Producer.resting refl (λ e. cc) tt h,
        )
    | no ne ↦
        let lt : length q < n = omega (arith, h.fits) in
        (
          record s { producer = room x },
          q,
          simp (at_head h lt),
          moved s (opened x) (room x) refl (λ e. cc) lt h,
        )
  ]
  produce-Keeps c (room x) s h = (
    record s {
      chan = record (s.chan) {
        buffer = set s.chan.buffer s.chan.head (record { content = some x; is_set = false });
      };
      producer = written x;
    },
    q,
    simp (at_head h h.producer_ok),
    record {
      slots = behind-Slots s (room x) (written x) _ q h h.producer_ok (λ i lt. ground arith);
      head_at = h.head_at;
      fits = h.fits;
      within = h.within;
      history = h.history;
      producer_ok = h.producer_ok;
      consumer_ok = h.consumer_ok;
      who_closed = λ c. ground (arith, h.who_closed c);
      while_closing = λ e. absurd (cc (h.while_closing e));
      at_end = λ e. absurd (cc (h.at_end e).0);
    },
  )
  produce-Keeps c (written x) s h = (
    record s {
      chan = record (s.chan) {
        buffer = set s.chan.buffer s.chan.head (Node.filled x);
        head = next_element s.chan.head (length s.chan.buffer);
      };
      producer = Producer.resting;
      sent = s.sent ++ (x ∷ []);
    },
    q ++ (x ∷ []),
    simp (at_head h h.producer_ok, length-set),
    record {
      slots =
          behind-Slots s (written x) Producer.resting _ (q ++ (x ∷ [])) h h.producer_ok
            (λ i lt. expected-append q x s.consumer i h.consumer_ok);
      head_at = advance s (written x) h x;
      fits = omega (arith, length-append q (x ∷ []), h.producer_ok);
      within = h.within;
      history = rw h.history (append_assoc s.got q (x ∷ []));
      producer_ok = tt;
      consumer_ok = ConsumerOk-append q x s.consumer h.consumer_ok;
      who_closed = λ c. ground (arith, h.who_closed c);
      while_closing = λ e. absurd (cc (h.while_closing e));
      at_end = λ e. absurd (cc (h.at_end e).0);
    },
  )
  produce-Keeps c Producer.gone s h = (_, q, refl, h)
