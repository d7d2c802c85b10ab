-- ===== src/Spsc/Bounded/Refine.antt =====
-- The operations of src/queues/spsc/bounded.rs, run one at a time, are those of a bounded FIFO.
use nolock.Prelude.{
  ℕ, ◌+◌, ◌%◌, ◌^◌, ◌<◌, ◌≡◌, inl, inr, refl, ap, sym, ◌∙◌, Bool, true, false, not, some, List, [],
  ◌∷◌, ◌++◌, length, get_elem?, set, arith, ◌>>=◌, get_elem?-replicate, length-replicate, mod-cases,
  mod-add-one, Bool-cases, ◌==◌, ℕ_discrete, length-append,
}
use nolock.Spsc.Node
use nolock.Spsc.Node.{Node}
use nolock.Spsc.Bounded.{
  Channel, next_element, queue, try_enqueue, try_dequeue, close, is_full, is_empty,
}
use nolock.Spsc.Bounded.Fifo
use nolock.Spsc.Bounded.Fifo.{Fifo}
use nolock.Spsc.Bounded.Repr.{Holds, Holds-push, Holds-pop, Holds-full, Holds-first, Holds-nil}
use nolock.Spsc.Bounded.Index.{next_element_lem, next_element-add}

-- The channel `s` with a buffer of `n` entries stands for the queue `q`.
pub record Represents {ℓ} {A : Type ℓ} (n : ℕ) (q : Fifo A) (s : Channel A) : Type ℓ where
  pub holds : Holds n s.tail q.items s.buffer
  pub head_at : s.head ≡ (s.tail + length q.items) % n
  pub flag : s.closed ≡ q.closed
  pub within : n < 2 ^ 64

module _ {ℓ} {A : Type ℓ} where
  pub queue-Represents :
      (n : ℕ)
      → 0 < n
      → n < 2 ^ 64
      → Represents n (record { items = []; closed = false }) (queue {A = A} n)
  unfolding queue
  queue-Represents n pos within = record {
    holds = record {
      size = length-replicate n _;
      fits = omega arith;
      start = pos;
      items = λ i x e. cc;
      free = λ i lo hi. get_elem?-replicate n _ _ (omega (arith, mod-cases n 0 i pos));
    };
    head_at = omega (arith, mod-cases n 0 0 pos);
    flag = refl;
    within = within;
  }

  module _ {n : ℕ} {q : Fifo A} {s : Channel A} (r : Represents n q s) where
    head-lt : s.head < n
    head-lt = omega (arith, r.head_at, mod-cases n s.tail (length q.items) r.holds.start)

    -- What the sender finds at its index.
    head_free : length q.items < n → get_elem? s.buffer s.head ≡ some Node.new
    head_free h = rw r.head_at (r.holds.free (length q.items) (omega arith) h)

    push-Represents :
        (x : A)
        → length q.items < n
        → Represents n
            (record q { items = q.items ++ (x ∷ []) })
            (record s {
              buffer = set s.buffer s.head (Node.filled x);
              head = next_element s.head (length s.buffer);
            })
    push-Represents x room = record {
      holds = rw r.head_at (Holds-push r.holds x room);
      head_at =
          rw (r.holds.size, r.head_at)
            (next_element-add n s.tail (length q.items) (omega (arith, r.holds.start)) r.within
              ∙ ap (λ k. (s.tail + k) % n) (omega (arith, length-append q.items (x ∷ []))));
      flag = r.flag;
      within = r.within;
    }

    -- `try_enqueue` answers as the FIFO does, and leaves the channel standing for what it leaves.
    pub try_enqueue_refines :
        (x : A)
        → (s' : Channel A) × (try_enqueue s x ≡ some ((Fifo.push n q x).0, s'))
          × Represents n (Fifo.push n q x).1 s'
    unfolding try_enqueue
    try_enqueue_refines x = elim (Bool-cases q.closed) [
      | inl c ↦ (s, ground (arith, r.flag), rw (Fifo.push_closed n q x c) r)
      | inr o ↦ elim (ℕ_discrete (length q.items) n) [
        | yes e ↦ (
          s,
          ground (arith, r.flag, Holds-full q.items r.holds e, r.head_at),
          rw (Fifo.push_full n q x o e) r,
        )
        | no ne ↦ (
          record s {
            buffer = set s.buffer s.head (Node.filled x);
            head = next_element s.head (length s.buffer);
          },
          ground (arith, r.flag, head_free (omega (arith, r.holds.fits))),
          rw (Fifo.push_room n q x o ne) (push-Represents x (omega (arith, r.holds.fits))),
        )
      ]
    ]

  pop-Represents :
      {n : ℕ} {x : A} {l : List A} {s : Channel A} (c : Bool)
      → Represents n (record { items = x ∷ l; closed = c }) s
      → Represents n
          (record { items = l; closed = c })
          (record s {
            buffer = set s.buffer s.tail Node.new;
            tail = next_element s.tail (length s.buffer);
          })
  pop-Represents {n} {x} {l} {s} c r = record {
    holds = rw next (Holds-pop r.holds);
    head_at = rw next (
        r.head_at
        ∙ sym (mod-add-one n s.tail (length l) ∙ ap (λ k. (s.tail + k) % n) (omega arith)));
    flag = r.flag;
    within = r.within;
  }
    where
      next : next_element s.tail (length s.buffer) ≡ (s.tail + 1) % n
      next = rw r.holds.size (next_element_lem n s.tail r.holds.start r.within)

  pop_refines_at :
      {n : ℕ} (l : List A) (c : Bool) {s : Channel A}
      → Represents n (record { items = l; closed = c }) s
      → let q : Fifo A = record { items = l; closed = c } in
        (s' : Channel A) × (try_dequeue s ≡ some ((Fifo.pop q).0, s'))
        × Represents n (Fifo.pop q).1 s'
  unfolding try_dequeue
  pop_refines_at [] c {s} r = (s, ground (arith, r.flag, Holds-nil r.holds), r)
  pop_refines_at (x ∷ l) c {s} r = (_, rw (Holds-first r.holds), pop-Represents c r)

  -- `try_dequeue` answers as the FIFO does: a closed queue is first emptied, and only then closed.
  pub try_dequeue_refines :
      {n : ℕ} {q : Fifo A} {s : Channel A}
      → Represents n q s
      → (s' : Channel A) × (try_dequeue s ≡ some ((Fifo.pop q).0, s'))
        × Represents n (Fifo.pop q).1 s'
  try_dequeue_refines {q} r = pop_refines_at q.items q.closed r

  pub close-Represents :
      {n : ℕ} {q : Fifo A} {s : Channel A}
      → Represents n q s
      → Represents n (record q { closed = true }) (close s)
  unfolding close
  close-Represents r = record {
    holds = r.holds;
    head_at = r.head_at;
    flag = refl;
    within = r.within;
  }

  -- `is_full` and `is_empty` tell how many items there are.
  pub is_full_lem :
      {n : ℕ} {q : Fifo A} {s : Channel A}
      → Represents n q s
      → (is_full s ≡ some (length q.items == n)) × (is_empty s ≡ some (length q.items == 0))
  unfolding is_full is_empty
  is_full_lem {n} {q} {s} r = (
    elim (ℕ_discrete (length q.items) n) [
      | yes e ↦ ground (arith, Holds-full q.items r.holds e, r.head_at)
      | no ne ↦ ground (arith, head_free r (omega (arith, r.holds.fits)))
    ],
    empty_at q.items r.holds,
  )
    where
      empty_at :
          (l : List A)
          → Holds n s.tail l s.buffer
          → (get_elem? s.buffer s.tail >>= λ e. some (not e.is_set)) ≡ some (length l == 0)
      empty_at [] h = rw (Holds-nil h)
      empty_at (x ∷ l) h = rw (Holds-first h) (ground arith)
