-- ===== src/Mpmc/Bounded/Refine.antt =====
-- The operations of src/queues/mpmc/queue.rs, run one at a time, are those of a bounded FIFO.
use nolock.Prelude.{
  ℕ, zero, suc, ◌+◌, ◌^◌, ◌<◌, ◌≤◌, ◌≡◌, refl, sym, ap, ◌∙◌, Bool, true, inl, inr, none, some, List,
  [], ◌∷◌, ◌++◌, length, set, replicate, arith, length-replicate, length-append, Bool-cases, ok,
  some-injective, get_elem?_of_lt, subst, append-nil,
}
use nolock.Mpmc.Underlying.{UnderlyingQueue}
use nolock.Mpmc.Bounded.{
  Channel, fill, queue, receivers_gone, senders_gone, try_enqueue, try_dequeue,
}
use nolock.Mpmc.Bounded.Spec
use nolock.Mpmc.Bounded.Spec.{Fifo}
use nolock.Mpmc.Bounded.Distinct.{upto, upto-Distinct, length-upto, Distinct-lt}
use nolock.Mpmc.Bounded.Repr.{Represents, push-Represents, pop-Represents}

module _ (u : UnderlyingQueue) where
  open u use {Queue, Holds}

  -- The channel `s` stands for `q`, whichever entries hold its items.
  abbrev pub Stands {ℓ} : {A : Type ℓ} → ℕ → ℕ → Fifo A → Channel Queue A → Type ℓ
  Stands n k q s = (used : List ℕ) × (free : List ℕ) × Represents u n k used free q s

  fill-Holds :
      (n k count index : ℕ) (q : Queue)
      → index + count ≡ n
      → n ≤ 2 ^ 32
      → Holds n (count + k) (upto index) q
      → (q' : Queue) × (fill u count index q ≡ some q') × Holds n k (upto n) q'
  unfolding fill
  fill-Holds n k zero index q at within h = (
    q,
    refl,
    subst (λ i. Holds n k (upto i) q) at' (subst (λ j. Holds n j (upto index) q) budget h),
  )
    where
      at' : index ≡ n
      at' = omega arith

      budget : zero + k ≡ k
      budget = omega arith
  fill-Holds n k (suc count) index q at within h =
      let (q1, e, h1) =
        u.enqueue_law n (count + k) (upto index) q index
          (subst (λ j. Holds n j (upto index) q) (omega arith) h) (omega (arith, length-upto index))
          (omega arith) in
      let (q2, f, h2) = fill-Holds n k count (suc index) q1 (omega arith) within h1 in
      (q2, rw e f, h2)

  module _ {ℓ} {A : Type ℓ} where
    -- With two new index queues, the channel is made and stands for an empty queue.
    pub queue-Stands :
        (n k : ℕ) (aq fq : Queue)
        → n ≤ 2 ^ 32
        → Holds n k [] aq
        → Holds n (n + k) [] fq
        → (s : Channel Queue A) × (queue u aq fq n ≡ some s)
          × Stands n k (record { items = []; receiver = true; sender = true }) s
    unfolding queue
    queue-Stands n k aq fq within ha hf =
        let (fq', e, h) = fill-Holds n k n 0 fq (omega arith) within hf in
        (
          record { buffer = replicate n none; aq = aq; fq = fq'; rx_count = 1; tx_count = 1 },
          rw e refl,
          (
            [],
            upto n,
            record {
              aq_holds = ha;
              fq_holds = h;
              distinct = upto-Distinct n;
              as_many = refl;
              size = length-replicate n none;
              within = within;
              receiver_count = refl;
              sender_count = refl;
              stored = λ i x e. cc;
            },
          ),
        )

    -- What a send must have done.
    abbrev pub Sent : ℕ → ℕ → Channel Queue A → A → Fifo A → Type ℓ
    Sent n k s x q =
        (s' : Channel Queue A) × (try_enqueue u s x ≡ some ((Spec.push n q x).0, s'))
        × Stands n k (Spec.push n q x).1 s'

    -- What a receive must have done.
    abbrev pub Received : ℕ → ℕ → Channel Queue A → Fifo A → Type ℓ
    Received n k s q =
        (s' : Channel Queue A) × (try_dequeue u s ≡ some ((Spec.pop q).0, s'))
        × Stands n k (Spec.pop q).1 s'

    module _ {n k : ℕ} where
      pub rests :
          {j : ℕ} {used free : List ℕ} {q : Fifo A} {s : Channel Queue A} {aq fq : Queue}
          → Represents u n j used free q s
          → Holds n k used aq
          → Holds n k free fq
          → Represents u n k used free q (record s { aq = aq; fq = fq })
      rests r ha hf = record {
        aq_holds = ha;
        fq_holds = hf;
        distinct = r.distinct;
        as_many = r.as_many;
        size = r.size;
        within = r.within;
        receiver_count = r.receiver_count;
        sender_count = r.sender_count;
        stored = r.stored;
      }

      push_open :
          (used free : List ℕ) {q : Fifo A} {s : Channel Queue A} (x : A)
          → Represents u n (suc k) used free q s
          → q.receiver ≡ true
          → Sent n k s x q
      unfolding try_enqueue receivers_gone
      push_open used [] {q} {s} x r o =
          let all : length used ≡ n = ap length (sym (append-nil used)) ∙ r.distinct.size in
          let (fq, e, hf) = u.dequeue_nil n k s.fq r.fq_holds in
          (
            record s { fq = fq },
            ground (arith, r.receiver_count, r.as_many, all, e),
            rw (Spec.push_full n q x o (omega (arith, all, r.as_many)))
                (used, [], rests r (u.weaken n k used s.aq r.aq_holds) hf),
          )
      push_open used (i ∷ free) {q} {s} x r o =
          let room : length used < n =
            omega (arith, r.distinct.size, length-append used (i ∷ free)) in
          let small : i < n = Distinct-lt used free r.distinct in
          let (fq, e, hf) = u.dequeue_cons n k i free s.fq r.fq_holds in
          let (aq, f, ha) =
            u.enqueue_law n k used s.aq i r.aq_holds room (omega (arith, r.within)) in
          let (entry, g) = get_elem?_of_lt s.buffer i (omega (arith, r.size)) in
          (
            record s { buffer = set s.buffer i (some x); aq = aq; fq = fq },
            ground (arith, r.receiver_count, r.as_many, e, f, g),
            rw (Spec.push_room n q x o (omega (arith, r.as_many)))
                (used ++ (i ∷ []), free, push-Represents u x r ha hf),
          )

      -- `try_enqueue` answers as the FIFO does, and leaves the channel standing for what it leaves.
      pub try_enqueue_refines :
          {q : Fifo A} {s : Channel Queue A} (x : A) → Stands n (suc k) q s → Sent n k s x q
      unfolding try_enqueue receivers_gone
      try_enqueue_refines {q} {s} x (used, free, r) = elim (Bool-cases q.receiver) [
        | inl o ↦ push_open used free x r o
        | inr c ↦ (
          s,
          ground (arith, r.receiver_count),
          rw (Spec.push_closed n q x c) (
            used,
            free,
            rests r (u.weaken n k used s.aq r.aq_holds) (u.weaken n k free s.fq r.fq_holds),
          ),
        )
      ]

      pop_at :
          (used free : List ℕ) (l : List A) {rx tx : Bool} {s : Channel Queue A}
          → Represents u n (suc k) used free (record { items = l; receiver = rx; sender = tx }) s
          → Received n k s (record { items = l; receiver = rx; sender = tx })
      unfolding try_dequeue senders_gone
      pop_at [] free [] {rx} {tx} {s} r =
          let (aq, e, ha) = u.dequeue_nil n k s.aq r.aq_holds in
          (
            record s { aq = aq },
            ground (arith, r.sender_count, e),
            ([], free, rests r ha (u.weaken n k free s.fq r.fq_holds)),
          )
      pop_at [] free (v ∷ l) r = absurd (omega (arith, r.as_many))
      pop_at (i ∷ used) free [] r = absurd (omega (arith, r.as_many))
      pop_at (i ∷ used) free (v ∷ l) {s} r =
          let room : length free < n = omega (arith, r.distinct.size, length-append used free) in
          let small : i < n = r.distinct.below 0 i refl in
          let (aq, e, ha) = u.dequeue_cons n k i used s.aq r.aq_holds in
          let (fq, f, hf) =
            u.enqueue_law n k free s.fq i r.fq_holds room (omega (arith, r.within)) in
          let (w, item, g) = r.stored 0 i refl in
          let t : Channel Queue A = record s { buffer = set s.buffer i none; aq = aq; fq = fq } in
          (
            t,
            rw (e, g, f) (ap (λ y. some (ok y, t)) (some-injective _ _ (sym item))),
            (used, free ++ (i ∷ []), pop-Represents u r ha hf),
          )

      -- `try_dequeue` answers as the FIFO does.
      pub try_dequeue_refines :
          {q : Fifo A} {s : Channel Queue A} → Stands n (suc k) q s → Received n k s q
      try_dequeue_refines {q} (used, free, r) = pop_at used free q.items r
