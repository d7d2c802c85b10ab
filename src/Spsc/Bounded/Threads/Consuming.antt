-- ===== src/Spsc/Bounded/Threads/Consuming.antt =====
-- Each access of the consumer keeps the invariant and does not fault.
use nolock.Prelude.{
  ℕ, suc, ◌+◌, ◌%◌, ◌≡◌, refl, sym, ◌∙◌, ap, subst, Bool, true, false, none, some, List, [], ◌∷◌,
  ◌++◌, inl, inr, length, set, arith, err, ok, Bool-cases, length-set, append_assoc, if-ne,
  mod-add-one,
}
use nolock.Queues.{DequeueError, empty}
use nolock.Spsc.Node
use nolock.Spsc.Node.{Node}
use nolock.Spsc.Bounded.{next_element}
use nolock.Spsc.Bounded.Index.{next_element_lem}
use nolock.Spsc.Bounded.Slots.{Slots}
use nolock.Spsc.Bounded.Threads.{Consumer, unset, closing, ready, taken, System, consume}
use nolock.Spsc.Bounded.Threads.Inv.{behind, expected, Inv}
use nolock.Spsc.Bounded.Threads.Steps.{Keeps, at_tail}
use nolock.Spsc.Bounded.Threads.Entries.{
  behind_unset, ProducerOk-le, moved, ready-Slots, taken-Slots,
}

module _ {ℓ} {A : Type ℓ} where
  pub consume-Keeps :
      {n : ℕ} (q : List A) (leaves : Bool) (c : Consumer A) (s : System A)
      → Inv n q (record s { consumer = c })
      → Keeps n (consume leaves c (record s { consumer = c }))
  unfolding consume
  consume-Keeps [] false Consumer.resting s h = (
    record s { consumer = unset },
    [],
    simp (at_tail h, behind_unset),
    moved [] s Consumer.resting unset s.last refl tt (λ e. cc) (λ e. cc) h.at_end h,
  )
  consume-Keeps (x ∷ q) false Consumer.resting s h = (
    record s { consumer = ready },
    x ∷ q,
    simp (at_tail h, if-ne 0 (suc (length q)) (behind s.producer) (omega arith)),
    moved (x ∷ q) s Consumer.resting ready s.last refl (x, refl) (λ e. cc) (λ e. cc) h.at_end h,
  )
  consume-Keeps q true Consumer.resting s h = (
    _,
    q,
    refl,
    record {
      slots = h.slots;
      head_at = h.head_at;
      fits = h.fits;
      within = h.within;
      history = h.history;
      producer_ok = h.producer_ok;
      consumer_ok = tt;
      who_closed = λ _. inr refl;
      while_closing = λ e. absurd (cc e);
      at_end = h.at_end;
    },
  )
  consume-Keeps q leaves unset s h = elim (Bool-cases s.chan.closed) [
    | inl c ↦ (
      record s { consumer = closing },
      q,
      simp c,
      moved q s unset closing s.last refl tt (λ e. cc)
          (λ _. elim (h.who_closed c) [ inl g ↦ g | inr g ↦ absurd (cc g) ]) h.at_end h,
    )
    | inr o ↦ (
      record s { consumer = Consumer.resting; last = some (err empty) },
      q,
      simp o,
      moved q s unset Consumer.resting (some (err empty)) refl tt (λ e. cc) (λ e. cc)
          (λ e. absurd (cc e)) h,
    )
  ]
  consume-Keeps [] leaves closing s h = (
    record s { consumer = Consumer.resting; last = some (err DequeueError.closed) },
    [],
    simp (at_tail h, behind_unset),
    moved [] s closing Consumer.resting _ refl tt (λ e. cc) (λ e. cc)
        (λ _. (h.while_closing refl, refl)) h,
  )
  consume-Keeps (x ∷ q) leaves closing s h = (
    record s { consumer = Consumer.resting; last = some (err empty) },
    x ∷ q,
    simp (at_tail h, if-ne 0 (suc (length q)) (behind s.producer) (omega arith)),
    moved (x ∷ q) s closing Consumer.resting _ refl tt (λ e. cc) (λ e. cc) (λ e. absurd (cc e)) h,
  )
  consume-Keeps [] leaves ready s h = cc (h.consumer_ok.1)
  consume-Keeps (x ∷ q) leaves ready s h = (
    record s {
      chan = record (s.chan) {
        buffer = set s.chan.buffer s.chan.tail (record { content = none; is_set = true });
      };
      consumer = taken x;
    },
    x ∷ q,
    simp (at_tail h, if-ne 0 (suc (length q)) (behind s.producer) (omega arith)),
    record {
      slots = ready-Slots x q s.producer s.chan.tail s.chan.buffer h.slots;
      head_at = h.head_at;
      fits = h.fits;
      within = h.within;
      history = h.history;
      producer_ok = h.producer_ok;
      consumer_ok = refl;
      who_closed = λ e. elim (h.who_closed e) [ inl g ↦ inl g | inr g ↦ absurd (cc g) ];
      while_closing = λ e. absurd (cc e);
      at_end = h.at_end;
    },
  )
  consume-Keeps [] leaves (taken x) s h = cc (h.consumer_ok)
  consume-Keeps {n} (y ∷ q) leaves (taken x) s h =
      let next : next_element s.chan.tail (length s.chan.buffer) ≡ (s.chan.tail + 1) % n =
        ap (next_element s.chan.tail) h.slots.size
        ∙ next_element_lem n s.chan.tail h.slots.start h.within in
      (
        record s {
          chan = record (s.chan) {
            buffer = set s.chan.buffer s.chan.tail Node.new;
            tail = next_element s.chan.tail (length s.chan.buffer);
          };
          consumer = Consumer.resting;
          got = s.got ++ (x ∷ []);
          last = some (ok x);
        },
        q,
        simp (at_tail h, if-ne 0 (suc (length q)) (behind s.producer) (omega arith), length-set),
        record {
          slots =
              subst
                (λ k.
                  Slots n k (expected q s.producer Consumer.resting)
                    (set s.chan.buffer s.chan.tail Node.new))
                (sym next)
                (taken-Slots x y q s.producer s.chan.tail s.chan.buffer h.slots h.producer_ok
                  h.fits);
          head_at =
              h.head_at
              ∙ ap (λ k. (s.chan.tail + k) % n) (omega arith)
              ∙ sym (mod-add-one n s.chan.tail (length q))
              ∙ ap (λ k. (k + length q) % n) (sym next);
          fits = omega (arith, h.fits);
          within = h.within;
          history =
              h.history
              ∙ ap (λ z. s.got ++ (z ∷ q)) (cc (h.consumer_ok))
              ∙ sym (append_assoc s.got (x ∷ []) q);
          producer_ok =
              ProducerOk-le n (suc (length q)) (length q) s.producer (omega arith) h.producer_ok;
          consumer_ok = tt;
          who_closed = λ e. elim (h.who_closed e) [ inl g ↦ inl g | inr g ↦ absurd (cc g) ];
          while_closing = λ e. absurd (cc e);
          at_end = λ e. absurd (cc e);
        },
      )
  consume-Keeps q leaves Consumer.gone s h = (_, q, refl, h)
