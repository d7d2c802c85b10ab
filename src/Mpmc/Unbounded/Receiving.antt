-- ===== src/Mpmc/Unbounded/Receiving.antt =====
-- What a receive does to the linked buffers of src/queues/mpmc/unbounded.rs.
use nolock.Prelude.{
  ℕ, suc, ◌+◌, ◌*◌, ◌^◌, ◌<◌, ◌≤◌, ◌≡◌, refl, sym, ap, ◌∙◌, true, false, Option, none, some, List,
  [], ◌∷◌, ◌==◌, get_elem?, set, length, arith, get_elem?-set_self, get_elem?-set_ne, length-set,
  lt_of_get_elem?, ok, err, Result, dec_lt, compare_exchange,
}
use nolock.Queues.{DequeueError, empty}
use nolock.Mpmc.Segment.{BoundedQueue}
use nolock.Mpmc.Segment.Refine.{
  Closed, dequeue-Open, dequeue_none, dequeue-Closed, dequeue_drained, reset-Closed,
}
use nolock.Mpmc.Unbounded.{Buffer, Channel, senders_gone, retire, try_dequeue}
use nolock.Mpmc.Unbounded.Chain.{
  Chain, last, more, slack, less-Open, less-Closed, less-Chain, frame,
}

module _ {ℓ} {A : Type ℓ} where
  -- The answer for a list of items, and what is left of it.
  abbrev pub taken : List A → Result A DequeueError
  taken [] = err empty
  taken (x ∷ l) = ok x

  abbrev pub remaining : List A → List A
  remaining [] = []
  remaining (x ∷ l) = l

  -- Every buffer before the place `h` is retired.
  abbrev pub Retired : List (Option (Buffer A)) → ℕ → Type ℓ
  Retired m h = (i : ℕ) → i < h → get_elem? m i ≡ some none

  -- What a receive must have done where the buffers hold `l`.
  abbrev pub Received : ℕ → ℕ → ℕ → ℕ → Channel A → List A → Type ℓ
  Received n k fuel r s l =
      (m : List (Option (Buffer A))) × (h : ℕ) × (g : List ℕ) × (try_dequeue n fuel r s
        ≡ some (taken l, record s { memory = m; head = h; retired = g }))
      × (length m ≡ length s.memory)
      × (Retired s.memory s.head → Retired m h)
      × Chain n k m false h (remaining l)

  abbrev pub parts : List (Option (Buffer A)) → ℕ → ℕ → List ℕ → ℕ → ℕ → Channel A
  parts m p tail g rx tx = record {
    memory = m;
    head = p;
    tail = tail;
    retired = g;
    rx_count = rx;
    tx_count = tx;
  }

Retired-retire {ℓ} :
    {A : Type ℓ} (m : List (Option (Buffer A))) (p : ℕ) (b : Option (Buffer A))
    → p < length m
    → Retired m p
    → Retired (set (set m p b) p none) (suc p)
Retired-retire m p b inside freed i lt = elim (dec_lt i p) [
  | yes before ↦
      get_elem?-set_ne (set m p b) p i none (omega arith)
      ∙ get_elem?-set_ne m p i b (omega arith)
      ∙ freed i before
  | no ge ↦
      let same : p ≡ i = omega arith in
      ap (get_elem? (set (set m p b) p none)) (sym same)
      ∙ get_elem?-set_self (set m p b) p none (omega (arith, length-set m p b))
]

module _ {n : ℕ} (size : n ≤ 2 ^ 30) {f : ℕ} (rounds : f ≤ 2 ^ 61)
    (many : n * 3 ≤ suc (suc f)) where
  module _ {ℓ} {A : Type ℓ} where
    -- A closed first buffer without items is looked at twice, and retired for the next one.
    advance :
        (r tail : ℕ) (g : List ℕ) (rx tx j : ℕ) (m : List (Option (Buffer A))) {p : ℕ}
        {q : BoundedQueue A}
        → (tx == 0) ≡ false
        → get_elem? m p ≡ some (some (record { queue = q; next = some (suc p) }))
        → Closed n j [] q
        → n * 6 + 1 < j
        → (b : Option (Buffer A)) × (try_dequeue n (suc (suc f)) (suc r) (parts m p tail g rx tx)
            ≡ try_dequeue n
                (suc (suc f))
                r
                (parts (set (set m p b) p none) (suc p) tail (p ∷ g) rx tx))
    unfolding try_dequeue senders_gone retire
    advance r tail g rx tx j m {p} {q} there at h enough =
        let (q1, e1, h1) = dequeue_drained size rounds (n * 3 + 1) h many (omega arith) in
        let (q2, e2, h2) =
          dequeue_drained size rounds 0 (reset-Closed size rounds h1) many (omega arith) in
        let b : Option (Buffer A) = some (record { queue = q2; next = some (suc p) }) in
        let written = get_elem?-set_self m p b (lt_of_get_elem? m p _ at) in
        let moved : (compare_exchange p p (suc p)).1 ≡ suc p = ground arith in
        (b, rw (try_dequeue, there, at, e1, e2, written, moved) refl)

  module _ {ℓ} {A : Type ℓ} {k : ℕ} where
    -- The chain behind a place that is written.
    behind :
        {m : List (Option (Buffer A))} {p : ℕ} {l : List A} (b : Option (Buffer A))
        → Chain n (suc k) m true (suc p) l
        → Chain n k (set m p b) true (suc p) l
    behind {m} {p} b c =
        frame (length-set m p b) (λ i le. get_elem?-set_ne m p i b (omega arith)) (less-Chain c)

    -- From a first buffer with items the first one is taken, in one round.
    receive_first :
        (r tail : ℕ) (g : List ℕ) (rx tx : ℕ) {m : List (Option (Buffer A))} {p : ℕ} {l : List A}
        → (tx == 0) ≡ false
        → Chain n (suc k) m true p l
        → Received n k (suc (suc f)) (suc r) (parts m p tail g rx tx) l
    unfolding try_dequeue senders_gone
    receive_first r tail g rx tx there (last {l = []} at h end filled) =
        absurd (omega (arith, filled refl))
    receive_first r tail g rx tx {m} {p} there (last {l = x ∷ l} at h end filled) =
        let (q, e, h') = dequeue-Open size rounds (less-Open (omega arith) h) in
        let node : Option (Buffer A) = some (record { queue = q; next = none }) in
        let size' = length-set m p node in
        (
          set m p node,
          p,
          g,
          rw (try_dequeue, there, at, e) refl,
          size',
          (λ freed i lt. get_elem?-set_ne m p i node (omega arith) ∙ freed i lt),
          last (get_elem?-set_self m p node (omega arith)) h' (end ∙ sym size') (λ s. cc),
        )
    receive_first r tail g rx tx there (more {l = []} at h filled c) =
        absurd (omega (arith, filled refl))
    receive_first r tail g rx tx {m} {p} there (more {l = x ∷ l} at h filled c) =
        let (q, e, h') = dequeue-Closed size rounds (less-Closed (omega arith) h) in
        let node : Option (Buffer A) = some (record { queue = q; next = some (suc p) }) in
        (
          set m p node,
          p,
          g,
          rw (try_dequeue, there, at, e) refl,
          length-set m p node,
          (λ freed i lt. get_elem?-set_ne m p i node (omega arith) ∙ freed i lt),
          more (get_elem?-set_self m p node (lt_of_get_elem? m p _ at)) h' (λ s. cc)
              (behind node c),
        )

    -- A receive takes the first item, in two rounds at most, and nothing exactly where there is none.
    pub receive-Chain :
        (r tail : ℕ) (g : List ℕ) (rx tx : ℕ) {m : List (Option (Buffer A))} {p : ℕ} {l : List A}
        → (tx == 0) ≡ false
        → Chain n (suc k) m false p l
        → Received n k (suc (suc f)) (suc (suc r)) (parts m p tail g rx tx) l
    unfolding try_dequeue senders_gone
    receive-Chain r tail g rx tx {m} {p} there (last {l = []} at h end filled) =
        let (q, e, h') = dequeue_none size rounds (less-Open (omega arith) h) in
        let node : Option (Buffer A) = some (record { queue = q; next = none }) in
        let size' = length-set m p node in
        (
          set m p node,
          p,
          g,
          rw (try_dequeue, there, at, e) refl,
          size',
          (λ freed i lt. get_elem?-set_ne m p i node (omega arith) ∙ freed i lt),
          last (get_elem?-set_self m p node (omega arith)) h' (end ∙ sym size') (λ s. cc),
        )
    receive-Chain r tail g rx tx there (last {l = x ∷ l} at h end filled) =
        receive_first (suc r) tail g rx tx there (last at h end (λ s. omega arith))
    receive-Chain r tail g rx tx there (more {l = x ∷ l} at h filled c) =
        receive_first (suc r) tail g rx tx there (more at h (λ s. omega arith) c)
    receive-Chain r tail g rx tx {m} {p} there (more {l = []} at h filled c) =
        let (b, e) = advance (suc r) tail g rx tx (slack n (suc k)) m there at h (omega arith) in
        let c' =
          frame {m' = set (set m p b) p none} (length-set (set m p b) p none ∙ length-set m p b)
            (λ i le.
              get_elem?-set_ne (set m p b) p i none (omega arith)
              ∙ get_elem?-set_ne m p i b (omega arith))
            c in
        let (m', h', g', f', same, kept, c'') = receive_first r tail (p ∷ g) rx tx there c' in
        (
          m',
          h',
          g',
          e ∙ f',
          same ∙ length-set (set m p b) p none ∙ length-set m p b,
          (λ freed. kept (Retired-retire m p b (lt_of_get_elem? m p _ at) freed)),
          c'',
        )
