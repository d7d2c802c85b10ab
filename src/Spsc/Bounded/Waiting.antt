-- ===== src/Spsc/Bounded/Waiting.antt =====
-- The calls of src/queues/spsc/bounded.rs that wait: `enqueue` and `dequeue` spin on the calls that do
-- not, with what the other half does in between. `fuel` bounds the attempts; `none` is its end, or a
-- fault.
use nolock.Prelude.{
  ◌==◌, ◌++◌, ◌≢◌, ℕ, zero, suc, ◌<◌, ◌≡◌, refl, true, false, Bool, Option, none, some, List, [],
  ◌∷◌, length, arith, ok, err, ◌>>=◌, if◌then◌else◌, ap, subst, sym, ◌∙◌, Bool-cases, inl, inr,
  ℕ_discrete,
}
use nolock.Queues.{EnqueueError, DequeueError}
use nolock.Spsc.Bounded.{Channel, EnqueueResult, try_enqueue, try_dequeue}
use nolock.Spsc.Bounded.Fifo
use nolock.Spsc.Bounded.Fifo.{Fifo}
use nolock.Spsc.Bounded.Refine.{Represents, try_enqueue_refines, try_dequeue_refines}

module _ {ℓ} {A : Type ℓ} where
  unfoldable pub enqueue :
      ℕ → (Channel A → Option (Channel A)) → Channel A → A → Option (EnqueueResult A × Channel A)
  enqueue zero meanwhile s x = none
  enqueue (suc fuel) meanwhile s x = elim (try_enqueue s x) [
    | none ↦ none
    | some (answer, s') ↦ elim answer [
      | ok _ ↦ some (ok tt, s')
      | err (d, e) ↦ elim e [
        | EnqueueError.full ↦ elim (meanwhile s') [
          | none ↦ none
          | some s'' ↦ enqueue fuel meanwhile s'' d
        ]
        | EnqueueError.closed ↦ some (err (d, EnqueueError.closed), s')
      ]
    ]
  ]

  unfoldable pub dequeue :
      ℕ → (Channel A → Option (Channel A)) → Channel A → Option (Option A × Channel A)
  dequeue zero meanwhile s = none
  dequeue (suc fuel) meanwhile s = elim (try_dequeue s) [
    | none ↦ none
    | some (answer, s') ↦ elim answer [
      | ok x ↦ some (some x, s')
      | err e ↦ elim e [
        | DequeueError.empty ↦ elim (meanwhile s') [
          | none ↦ none
          | some s'' ↦ dequeue fuel meanwhile s''
        ]
        | DequeueError.closed ↦ some (none, s')
      ]
    ]
  ]

  -- The receiver takes an item in between.
  abbrev pub receiver_takes : Channel A → Option (Channel A)
  receiver_takes s = do (answer, s') ← try_dequeue s; some s'

  -- The sender sends `x` in between.
  abbrev pub sender_sends : A → Channel A → Option (Channel A)
  sender_sends x s = do (answer, s') ← try_enqueue s x; some s'

  dequeue_at :
      {n : ℕ} (l : List A) (c : Bool) {s : Channel A} (fuel : ℕ) (sent : A)
      → Represents n (record { items = l; closed = c }) s
      → 0 < n
      → (s' : Channel A) × (dequeue (suc (suc fuel)) (sender_sends sent) s
          ≡ some (elim l [ [] ↦ if c then none else some sent | x ∷ rest ↦ some x ], s'))
  unfolding dequeue
  dequeue_at (x ∷ l) c fuel sent r pos =
      let (s1, e, r1) = try_dequeue_refines r in (s1, rw (e, dequeue) refl)
  dequeue_at [] true fuel sent r pos =
      let (s1, e, r1) = try_dequeue_refines r in (s1, rw (e, dequeue) refl)
  dequeue_at {n} [] false fuel sent r pos =
      let (s1, e, r1) = try_dequeue_refines r in
      let (s2, f, r2) = try_enqueue_refines r1 sent in
      let room = Fifo.push_room n (record { items = []; closed = false }) sent refl (omega arith) in
      let r2' : Represents n (record { items = sent ∷ []; closed = false }) s2 = rw room at r2 in
      let (s3, g, r3) = try_dequeue_refines r2' in (s3, rw (e, dequeue, f, g) refl)

  -- On a channel of at least one entry that stands for a FIFO, `dequeue` returns at once with the first item of a queue that has one, and with nothing from an
  -- empty one that is closed; from an empty open one it returns, in the second round, with the item
  -- that is sent meanwhile.
  pub dequeue_lem :
      {n : ℕ} {q : Fifo A} {s : Channel A} (fuel : ℕ) (sent : A)
      → Represents n q s
      → 0 < n
      → (s' : Channel A) × (dequeue (suc (suc fuel)) (sender_sends sent) s
          ≡ some
              (elim q.items [ [] ↦ if q.closed then none else some sent | x ∷ rest ↦ some x ], s'))
  dequeue_lem {q} fuel sent r pos = dequeue_at q.items q.closed fuel sent r pos

  -- What a send gives, and what the channel then stands for, once the FIFO's answer is known.
  answered :
      {n : ℕ} {q q' : Fifo A} {s : Channel A} (x : A) {a : EnqueueResult A}
      → Represents n q s
      → Fifo.push n q x ≡ (a, q')
      → (s' : Channel A) × (try_enqueue s x ≡ some (a, s')) × Represents n q' s'
  answered {n} x r pushed =
      let (s', e, r') = try_enqueue_refines r x in
      (s', e ∙ ap (λ p. some (p.0, s')) pushed, subst (λ p. Represents n p.1 s') pushed r')

  abbrev pub without_first : List A → List A
  without_first [] = []
  without_first (x ∷ l) = l

  -- The FIFO after a send that waits, where the receiver takes the first item of a full one meanwhile.
  abbrev pub after_send : ℕ → Fifo A → A → Fifo A
  after_send n q x =
      if q.closed
      then q
      else if length q.items == n
      then record { items = without_first q.items ++ (x ∷ []); closed = false }
      else record { items = q.items ++ (x ∷ []); closed = false }

  after_send_closed : (n : ℕ) (q : Fifo A) (x : A) → q.closed ≡ true → after_send n q x ≡ q
  after_send_closed n q x c = ground arith

  after_send_full :
      (n : ℕ) (q : Fifo A) (x : A)
      → q.closed ≡ false
      → length q.items ≡ n
      → after_send n q x ≡ record { items = without_first q.items ++ (x ∷ []); closed = false }
  after_send_full n q x o e = ground arith

  after_send_room :
      (n : ℕ) (q : Fifo A) (x : A)
      → q.closed ≡ false
      → length q.items ≢ n
      → after_send n q x ≡ record { items = q.items ++ (x ∷ []); closed = false }
  after_send_room n q x o ne = ground arith

  enqueue_full :
      {n : ℕ} (l : List A) {s : Channel A} (fuel : ℕ) (x : A)
      → Represents n (record { items = l; closed = false }) s
      → 0 < n
      → length l ≡ n
      → (s' : Channel A) × (enqueue (suc (suc fuel)) receiver_takes s x ≡ some (ok tt, s'))
        × Represents n (record { items = without_first l ++ (x ∷ []); closed = false }) s'
  unfolding enqueue
  enqueue_full [] fuel x r pos all = absurd (omega arith)
  enqueue_full {n} (y ∷ l) fuel x r pos all =
      let (s1, e, r1) =
        answered x r (Fifo.push_full n (record { items = y ∷ l; closed = false }) x refl all) in
      let (s2, f, r2) = try_dequeue_refines r1 in
      let (s3, g, r3) =
        answered x r2
          (Fifo.push_room n (record { items = l; closed = false }) x refl (omega arith)) in
      (s3, rw (e, enqueue, f, g) refl, r3)

  -- On a channel of at least one entry that stands for a FIFO, `enqueue` returns at once with the item from a
  -- closed queue, which stays as it is, and otherwise the item is the last one of the queue when it returns: at
  -- once where there is room, and in the second round where the queue was full and the receiver takes its first
  -- item meanwhile.
  pub enqueue_lem :
      {n : ℕ} {q : Fifo A} {s : Channel A} (fuel : ℕ) (x : A)
      → Represents n q s
      → 0 < n
      → (s' : Channel A) × (enqueue (suc (suc fuel)) receiver_takes s x
          ≡ some (if q.closed then err (x, EnqueueError.closed) else ok tt, s'))
        × Represents n (after_send n q x) s'
  unfolding enqueue
  enqueue_lem {n} {q} {s} fuel x r pos = elim (Bool-cases q.closed) [
    | inl c ↦
        let (s1, e, r1) = answered x r (Fifo.push_closed n q x c) in
        (
          s1,
          ground (arith, c, e),
          subst (λ q. Represents n q s1) (sym (after_send_closed n q x c)) r1,
        )
    | inr o ↦ elim (ℕ_discrete (length q.items) n) [
      | yes all ↦
          let same : Represents n (record { items = q.items; closed = false }) s =
            subst (λ c. Represents n (record { items = q.items; closed = c }) s) o r in
          let (s1, e, r1) = enqueue_full q.items fuel x same pos all in
          (
            s1,
            e ∙ ap (λ c. some (if c then err (x, EnqueueError.closed) else ok tt, s1)) (sym o),
            subst (λ q. Represents n q s1) (sym (after_send_full n q x o all)) r1,
          )
      | no ne ↦
          let (s1, e, r1) = answered x r (Fifo.push_room n q x o ne) in
          let r1' : Represents n (record { items = q.items ++ (x ∷ []); closed = false }) s1 =
            subst (λ c. Represents n (record { items = q.items ++ (x ∷ []); closed = c }) s1) o
              r1 in
          (
            s1,
            ground (arith, o, e),
            subst (λ q. Represents n q s1) (sym (after_send_room n q x o ne)) r1',
          )
    ]
  ]
