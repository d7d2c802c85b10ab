-- ===== src/Mpmc/Segment/Refine.antt =====
-- The operations of src/queues/mpmc/unbounded/queue.rs as those of a FIFO of at most `n` items that is
-- closed once it was full.
use nolock.Prelude.{
  ℕ, zero, suc, ◌+◌, ◌-◌, ◌*◌, ◌%◌, ◌^◌, ◌<◌, ◌≤◌, ◌≡◌, refl, sym, ap, ap₂, ◌∙◌, true, none, some,
  List, [], ◌∷◌, ◌++◌, length, set, replicate, arith, ok, err, length-replicate, length-append,
  get_elem?_of_lt, subst, append-nil,
}
use nolock.Queues.{full, empty}
use nolock.Mpmc.Scq
use nolock.Mpmc.Scq.Holds.{Holds}
use nolock.Mpmc.Scq.Laws
use nolock.Mpmc.Scq.Keeps.{less-Holds, weaken-Holds, reset-Holds}
use nolock.Mpmc.ScqBounded.{scq}
use nolock.Mpmc.FinalScq
use nolock.Mpmc.FinalScq.Laws.{finalize_record}
use nolock.Mpmc.FinalScq.Drained.{dequeue-drained}
use nolock.Mpmc.Bounded.{Channel}
use nolock.Mpmc.Bounded.Distinct.{upto, upto-Distinct, length-upto, Distinct-lt}
use nolock.Mpmc.Bounded.Refine.{rests}
use nolock.Mpmc.Bounded.Repr.{Represents, push-Represents, pop-Represents}
use nolock.Mpmc.Segment.{BoundedQueue, fill, new_queue, try_enqueue, dequeue}
use nolock.Mpmc.Segment.Laws.{
  enqueue-Holds, tail-lt, try_enqueue_room, try_enqueue_full, dequeue_lem,
}

module _ {ℓ} {A : Type ℓ} where
  -- The queue's three parts, as a channel of src/queues/mpmc/queue.rs with both halves there.
  abbrev pub channel : BoundedQueue A → Channel Scq.Queue A
  channel s = record { buffer = s.data_entries; aq = s.aq; fq = s.fq; rx_count = 1; tx_count = 1 }

  -- `s` holds the items `l`, and takes more; `k` more calls stay within its counters.
  abbrev pub Open : ℕ → ℕ → List A → BoundedQueue A → Type ℓ
  Open n k l s =
      (used : List ℕ) × (free : List ℕ) × Represents scq n k used free
        (record { items = l; receiver = true; sender = true }) (channel s)

  -- `s` holds the items `l`, and takes no more, since bit 63 of the tail of `aq` is set.
  abbrev pub Closed : ℕ → ℕ → List A → BoundedQueue A → Type ℓ
  Closed n k l s =
      (t : ℕ) × (2 ^ 63 ≤ t)
      × (aq : Scq.Queue) × (s.aq ≡ record aq { tail = t })
      × Open n k l (record s { aq = aq })

pub Open-fits {ℓ} :
    {A : Type ℓ} {n k : ℕ} {l : List A} {s : BoundedQueue A} → Open n k l s → length l ≤ n
Open-fits (used, free, r) = omega (arith, r.as_many, r.distinct.size, length-append used free)

module _ {n : ℕ} (size : n ≤ 2 ^ 30) {f : ℕ} (rounds : f ≤ 2 ^ 61) where
  fill-Holds :
      (k count index : ℕ) (q : Scq.Queue)
      → index + count ≡ n
      → Holds n (count + k) (upto index) q
      → (q' : Scq.Queue) × (fill (suc (suc f)) count index q ≡ some q') × Holds n k (upto n) q'
  unfolding fill
  fill-Holds k zero index q at h =
      let at' : index ≡ n = omega arith in
      (q, refl, subst (λ i. Holds n k (upto i) q) at' (less-Holds (omega arith) h))
  fill-Holds k (suc count) index q at h =
      let (q1, e, h1) =
        enqueue-Holds size rounds index (less-Holds {k = suc (count + k)} (omega arith) h)
          (omega (arith, length-upto index)) (omega arith) in
      let (q2, g, h2) = fill-Holds k count (suc index) q1 (omega arith) h1 in
      (q2, rw (e, g) refl, h2)

  module _ {ℓ} {A : Type ℓ} where
    -- A new queue is open and empty.
    pub new_queue-Open :
        (k : ℕ)
        → 0 < n
        → n * 2 + (n + k) < 2 ^ 31 * (n * 2)
        → (s : BoundedQueue A) × (new_queue (suc (suc f)) n ≡ some s) × Open n k [] s
    unfolding new_queue
    new_queue-Open k pos budget =
        let (fq, e, h) =
          fill-Holds k n 0 (Scq.new n) (omega arith)
            (Scq.Laws.new-Holds n (n + k) pos (omega arith) budget) in
        (
          record { data_entries = replicate n none; aq = Scq.new n; fq = fq },
          rw e refl,
          (
            [],
            upto n,
            record {
              aq_holds = Scq.Laws.new-Holds n k pos (omega arith) (omega arith);
              fq_holds = h;
              distinct = upto-Distinct n;
              as_many = refl;
              size = length-replicate n none;
              within = omega arith;
              receiver_count = refl;
              sender_count = refl;
              stored = λ i x e. cc;
            },
          ),
        )

    module _ {k : ℕ} {l : List A} {s : BoundedQueue A} where
      -- With room, a send puts its item behind the others.
      pub try_enqueue-Open :
          (x : A)
          → Open n (suc k) l s
          → length l < n
          → (s' : BoundedQueue A) × (try_enqueue (suc (suc f)) s x ≡ some (ok tt, s'))
            × Open n k (l ++ (x ∷ [])) s'
      try_enqueue-Open x (used, [], r) room =
          absurd (omega (arith, r.as_many, r.distinct.size, ap length (append-nil used)))
      try_enqueue-Open x (used, i ∷ free, r) room =
          let (b, bucket) =
            get_elem?_of_lt s.data_entries i
              (omega (arith, r.size, Distinct-lt used free r.distinct)) in
          let (aq, fq, e, ha, hf) =
            try_enqueue_room size rounds s x r.fq_holds r.aq_holds (omega (arith, r.as_many))
              bucket in
          (
            record s { data_entries = set s.data_entries i (some x); aq = aq; fq = fq },
            e,
            (used ++ (i ∷ []), free, push-Represents scq x r ha hf),
          )

      -- Without room, it gives its item back and closes the queue.
      pub try_enqueue-Closed :
          (x : A)
          → Open n (suc k) l s
          → length l ≡ n
          → (s' : BoundedQueue A) × (try_enqueue (suc (suc f)) s x ≡ some (err (full, x), s'))
            × Closed n k l s'
      try_enqueue-Closed x (used, i ∷ free, r) all =
          absurd (omega (arith, r.as_many, r.distinct.size, length-append used (i ∷ free)))
      try_enqueue-Closed x (used, [], r) all =
          let (fq, e, hf) = try_enqueue_full size rounds s x r.fq_holds in
          let small = tail-lt size rounds r.aq_holds in
          (
            record s { aq = FinalScq.finalize s.aq; fq = fq },
            e,
            (
              2 ^ 63 + s.aq.tail,
              omega arith,
              s.aq,
              finalize_record s.aq (omega arith),
              (used, [], rests scq r (weaken-Holds r.aq_holds) hf),
            ),
          )

    module _ {k : ℕ} {s : BoundedQueue A} where
      -- A receive takes the first item.
      pub dequeue-Open :
          {x : A} {l : List A}
          → Open n (suc k) (x ∷ l) s
          → (s' : BoundedQueue A) × (dequeue (suc (suc f)) s ≡ some (ok x, s')) × Open n k l s'
      dequeue-Open ([], free, r) = absurd (omega (arith, r.as_many))
      dequeue-Open {x} {l} (i ∷ used, free, r) =
          let (w, item, entry) = r.stored 0 i refl in
          let bucket = entry ∙ ap some (sym item) in
          let (aq, fq, e, ha, hf) =
            dequeue_lem size rounds s r.aq_holds r.fq_holds
              (omega (arith, r.distinct.size, length-append used free)) bucket in
          (
            record s { data_entries = set s.data_entries i none; aq = aq; fq = fq },
            e,
            (used, free ++ (i ∷ []), pop-Represents scq r ha hf),
          )

      -- From a queue that is open and empty it takes nothing.
      pub dequeue_none :
          Open n (suc k) [] s
          → (s' : BoundedQueue A) × (dequeue (suc (suc f)) s ≡ some (err empty, s'))
            × Open n k [] s'
      unfolding dequeue
      dequeue_none (i ∷ used, free, r) = absurd (omega (arith, r.as_many))
      dequeue_none ([], free, r) =
          let (aq, e, ha) = Scq.Laws.dequeue-nil (suc f) r.aq_holds in
          (
            record s { aq = aq },
            rw (dequeue, e) refl,
            ([], free, rests scq r ha (weaken-Holds r.fq_holds)),
          )

      -- A closed queue gives its items too.
      pub dequeue-Closed :
          {x : A} {l : List A}
          → Closed n (suc k) (x ∷ l) s
          → (s' : BoundedQueue A) × (dequeue (suc (suc f)) s ≡ some (ok x, s')) × Closed n k l s'
      unfolding dequeue
      dequeue-Closed (t, final, q, same, ([], free, r)) = absurd (omega (arith, r.as_many))
      dequeue-Closed {x} {l} (t, final, q, same, (i ∷ used, free, r)) =
          let (w, item, entry) = r.stored 0 i refl in
          let bucket = entry ∙ ap some (sym item) in
          let (aq, e, still, ha) = Scq.Laws.dequeue-cons_tail (suc f) t r.aq_holds in
          let taken = ap (Scq.dequeue (suc (suc f))) same ∙ e in
          let (fq, placed, hf) =
            enqueue-Holds size rounds i r.fq_holds
              (omega (arith, r.distinct.size, length-append used free))
              (r.aq_holds.words 0 i refl) in
          (
            record s {
              data_entries = set s.data_entries i none;
              aq = record aq { tail = t };
              fq = fq;
            },
            rw (dequeue, taken, bucket, placed) refl,
            (t, final, aq, refl, (used, free ++ (i ∷ []), pop-Represents scq r ha hf)),
          )

    module _ {s : BoundedQueue A} where
      -- A closed queue without items gives nothing, after three rounds for each index at most.
      pub dequeue_drained :
          {j : ℕ} (k : ℕ)
          → Closed n j [] s
          → n * 3 ≤ suc (suc f)
          → n * 3 + k < j
          → (s' : BoundedQueue A) × (dequeue (suc (suc f)) s ≡ some (err empty, s'))
            × Closed n k [] s'
      unfolding dequeue
      dequeue_drained k (t, final, q, same, (i ∷ used, free, r)) many enough =
          absurd (omega (arith, r.as_many))
      dequeue_drained k (t, final, q, same, ([], free, r)) many enough =
          let (aq, e, ha) = dequeue-drained final size k (suc (suc f)) r.aq_holds many enough in
          let nothing = ap (Scq.dequeue (suc (suc f))) same ∙ e in
          (
            record s { aq = record aq { tail = t } },
            rw (dequeue, nothing) refl,
            (t, final, aq, refl, ([], free, rests scq r ha (less-Holds (omega arith) r.fq_holds))),
          )

      -- A threshold that is set again does not open it.
      pub reset-Closed :
          {k : ℕ} {l : List A}
          → Closed n k l s
          → Closed n k l
              (record s { aq = record s.aq { threshold = (s.aq.size * 3 - 1) % 2 ^ 64 } })
      reset-Closed (t, final, q, same, (used, free, r)) =
          let word : (s.aq.size * 3 - 1) % 2 ^ 64 ≡ n * 3 - 1 =
            omega (arith, ap (λ (q : Scq.Queue). q.size) same, r.aq_holds.for_size) in
          (
            t,
            final,
            record q { threshold = n * 3 - 1 },
            ap₂ (λ (q : Scq.Queue) v. record q { threshold = v }) same word,
            (used, free, rests scq r (reset-Holds r.aq_holds) r.fq_holds),
          )
