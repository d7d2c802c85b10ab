-- ===== src/Mpmc/Segment/Laws.antt =====
-- What the operations of src/queues/mpmc/unbounded/queue.rs do to the indices that its two queues hold.
use nolock.Prelude.{
  ℕ, suc, ◌+◌, ◌^◌, ◌<◌, ◌≤◌, ◌≡◌, refl, ◌∙◌, ap, Option, none, some, List, [], ◌∷◌, ◌++◌, length,
  get_elem?, set, ◌>>=◌, ok, err, arith, inl, inr, get_elem?-set_self, add_usize,
}
use nolock.Queues.{full}
use nolock.Mpmc.Scq
use nolock.Mpmc.Scq.Holds.{Holds}
use nolock.Mpmc.Scq.Laws
use nolock.Mpmc.FinalScq
use nolock.Mpmc.FinalScq.Laws.{enqueue-enqueue, enqueue_past}
use nolock.Mpmc.Segment.{BoundedQueue, try_enqueue, dequeue}

module _ {n k : ℕ} (size : n ≤ 2 ^ 30) {f : ℕ} (rounds : f ≤ 2 ^ 61) where
  -- The tail of a queue with some calls left is far below its bit 63.
  pub tail-lt : {l : List ℕ} {q : Scq.Queue} → Holds n (suc k) l q → q.tail + suc (suc f) < 2 ^ 63
  tail-lt {l} {q} h = elim h.written [
    | inl at ↦ omega (arith, at, h.budget, size, rounds)
    | inr (_, at, _) ↦ omega (arith, at, h.budget, size, rounds)
  ]

  -- An index is placed behind the others of a queue that is not finalised.
  pub enqueue-Holds :
      {l : List ℕ} {q : Scq.Queue} (i : ℕ)
      → Holds n (suc k) l q
      → length l < n
      → i < 2 ^ 32
      → (q' : Scq.Queue) × (FinalScq.enqueue (suc (suc f)) q i ≡ some (ok tt, q'))
        × Holds n k (l ++ (i ∷ [])) q'
  enqueue-Holds {l} {q} i h room word =
      let (q', placed, h') = Scq.Laws.enqueue-Holds f i h room word in
      (
        q',
        enqueue-enqueue (suc (suc f)) q i (tail-lt h) ∙ ap (λ o. o >>= λ r. some (ok tt, r)) placed,
        h',
      )

  module _ {ℓ} {A : Type ℓ} (s : BoundedQueue A) where
    -- Where an index is free, a send writes its item at the oldest one, which becomes the youngest that
    -- holds an item.
    pub try_enqueue_room :
        {l free : List ℕ} {i : ℕ} {b : Option A} (x : A)
        → Holds n (suc k) (i ∷ free) s.fq
        → Holds n (suc k) l s.aq
        → length l < n
        → get_elem? s.data_entries i ≡ some b
        → (aq fq : Scq.Queue) × (try_enqueue (suc (suc f)) s x
            ≡ some (
              ok tt,
              record s { data_entries = set s.data_entries i (some x); aq = aq; fq = fq },
            ))
          × Holds n k (l ++ (i ∷ [])) aq
          × Holds n k free fq
    unfolding try_enqueue
    try_enqueue_room {l} {free} {i} x hf ha room bucket =
        let (fq, taken, hf') = Scq.Laws.dequeue-cons (suc f) hf in
        let (aq, placed, ha') = enqueue-Holds i ha room (hf.words 0 i refl) in
        (aq, fq, rw (try_enqueue, taken, bucket, placed) refl, ha', hf')

    -- Where no index is free, a send gives its item back and finalises the queue.
    pub try_enqueue_full :
        (x : A)
        → Holds n (suc k) [] s.fq
        → (fq : Scq.Queue) × (try_enqueue (suc (suc f)) s x
            ≡ some (err (full, x), record s { aq = FinalScq.finalize s.aq; fq = fq }))
          × Holds n k [] fq
    unfolding try_enqueue
    try_enqueue_full x hf =
        let (fq, nothing, hf') = Scq.Laws.dequeue-nil (suc f) hf in
        (fq, rw (try_enqueue, nothing) refl, hf')

    -- Where bit 63 of the tail of `aq` is set, a send gives its item back although an index is free, and
    -- loses that index.
    pub try_enqueue_finalized :
        {free : List ℕ} {i : ℕ} {b : Option A} (x : A)
        → Holds n (suc k) (i ∷ free) s.fq
        → 2 ^ 63 ≤ s.aq.tail
        → s.aq.tail < 2 ^ 64
        → get_elem? s.data_entries i ≡ some b
        → i < length s.data_entries
        → (aq fq : Scq.Queue) × (try_enqueue (suc (suc f)) s x
            ≡ some (
              err (full, x),
              record s {
                data_entries = set (set s.data_entries i (some x)) i none;
                aq = aq;
                fq = fq;
              },
            ))
          × Holds n k free fq
    unfolding try_enqueue
    try_enqueue_finalized {free} {i} x hf top small bucket inside =
        let (fq, taken, hf') = Scq.Laws.dequeue-cons (suc f) hf in
        let refused = enqueue_past (suc f) s.aq i top small in
        let held = get_elem?-set_self s.data_entries i (some x) inside in
        (
          record s.aq { tail = add_usize s.aq.tail 1 },
          fq,
          rw (try_enqueue, taken, bucket, refused, held) refl,
          hf',
        )

    -- A receive takes the item at the oldest index that holds one, which becomes the youngest free one.
    pub dequeue_lem :
        {l free : List ℕ} {i : ℕ} {x : A}
        → Holds n (suc k) (i ∷ l) s.aq
        → Holds n (suc k) free s.fq
        → length free < n
        → get_elem? s.data_entries i ≡ some (some x)
        → (aq fq : Scq.Queue) × (dequeue (suc (suc f)) s
            ≡ some (ok x, record s { data_entries = set s.data_entries i none; aq = aq; fq = fq }))
          × Holds n k l aq
          × Holds n k (free ++ (i ∷ [])) fq
    unfolding dequeue
    dequeue_lem {l} {free} {i} ha hf room bucket =
        let (aq, taken, ha') = Scq.Laws.dequeue-cons (suc f) ha in
        let (fq, placed, hf') = enqueue-Holds i hf room (ha.words 0 i refl) in
        (aq, fq, rw (dequeue, taken, bucket, placed) refl, ha', hf')
