-- ===== src/Spsc/Bounded/Threads/Entries.antt =====
-- What the entries of src/queues/spsc/bounded.rs hold while the receiver takes one of them.
use native.Mathlib.Numerals.{add-one}
use nolock.Prelude.{
  ℕ, zero, suc, ◌+◌, ◌%◌, ◌<◌, ◌≤◌, ◌≡◌, ◌≢◌, refl, sym, ◌∙◌, ap, subst, true, false, Option, none,
  some, List, [], ◌∷◌, inl, inr, if◌then◌else◌, ◌==◌, length, get_elem?, set, arith, Result, err,
  get_elem?-none, ℕ_discrete, if-eq, if-ne, mod-add-zero,
}
use nolock.Queues.{DequeueError}
use nolock.Spsc.Node
use nolock.Spsc.Node.{Node}
use nolock.Spsc.Bounded.Slots.{Slots, Slots-ext, Slots-set, Slots-rotate}
use nolock.Spsc.Bounded.Threads.{Producer, written, Consumer, closing, ready, taken, System}
use nolock.Spsc.Bounded.Threads.Inv.{behind, cell, front, expected, ProducerOk, ConsumerOk, Inv}

module _ {ℓ} {A : Type ℓ} where
  pub behind_unset : (p : Producer A) → (behind p).is_set ≡ false
  behind_unset (written x) = refl
  behind_unset _ = refl

  behind_full : (n k : ℕ) (p : Producer A) → ProducerOk n k p → k ≡ n → behind p ≡ Node.new
  behind_full n k (written x) h e = absurd (omega arith)
  behind_full n k _ h e = refl

  first : (q : List A) → 0 < length q → (x : A) × (get_elem? q 0 ≡ some x)
  first [] h = elim h [ ]
  first (x ∷ q) h = (x, refl)

  -- Behind the first item nothing changes when it is taken off.
  expected-cons :
      (p : Producer A) (x : A) (q : List A) (i : ℕ)
      → expected (x ∷ q) p (taken x) (i + 1) ≡ expected q p Consumer.resting i
  expected-cons p x q i = elim (ℕ_discrete i (length q)) [
    | yes e ↦ if-eq (i + 1) (suc (length q)) _ (omega arith) ∙ sym (if-eq i (length q) _ e)
    | no ne ↦
        if-ne (i + 1) (suc (length q)) (behind p) (omega arith)
        ∙ if-ne (i + 1) 0 (front (taken x) (some x)) (omega arith)
        ∙ ap (λ k. cell (get_elem? (x ∷ q) k)) (add-one i)
        ∙ sym (if-ne i (length q) (behind p) ne ∙ ends i)
  ]
    where
      ends :
          (i : ℕ)
          → (if i == 0 then cell (get_elem? q 0) else cell (get_elem? q i)) ≡ cell (get_elem? q i)
      ends zero = refl
      ends (suc i) = if-ne (suc i) 0 (cell (get_elem? q 0)) (omega arith)

  -- The entry that it leaves is the last one, and free.
  expected-last :
      (n : ℕ) (p : Producer A) (q : List A) (i : ℕ)
      → ProducerOk n (suc (length q)) p
      → suc (length q) ≤ n
      → i + 1 ≡ n
      → Node.new ≡ expected q p Consumer.resting i
  expected-last n p q i can fits e = elim (ℕ_discrete i (length q)) [
    | yes here ↦
        sym (if-eq i (length q) _ here ∙ behind_full n (suc (length q)) p can (omega arith))
    | no ne ↦ sym (
        if-ne i (length q) (behind p) ne
        ∙ if-ne i 0 (cell (get_elem? q 0)) (omega arith)
        ∙ ap cell (get_elem?-none q i (omega arith)))
  ]

  -- A smaller queue leaves the producer its room.
  pub ProducerOk-le : (n k j : ℕ) (p : Producer A) → j ≤ k → ProducerOk n k p → ProducerOk n j p
  ProducerOk-le n k j (Producer.room x) le h = omega arith
  ProducerOk-le n k j (written x) le h = omega arith
  ProducerOk-le n k j _ le h = tt

  -- A move of the consumer's place that leaves the shared entries alone.
  pub moved :
      {n : ℕ} (q : List A) (s : System A) (c c' : Consumer A) (l : Option (Result A DequeueError))
      → front c (get_elem? q 0) ≡ front c' (get_elem? q 0)
      → ConsumerOk q c'
      → c ≢ Consumer.gone
      → (c' ≡ closing → s.producer ≡ Producer.gone)
      → (l ≡ some (err DequeueError.closed) → (s.producer ≡ Producer.gone) × (q ≡ []))
      → Inv n q (record s { consumer = c })
      → Inv n q (record s { consumer = c'; last = l })
  moved q s c c' l same can here wc ae h = record {
    slots = Slots-ext h.slots _ (λ i lt.
        ap
          (λ f.
            if i == length q then behind s.producer else if i == 0 then f else cell (get_elem? q i))
          same);
    head_at = h.head_at;
    fits = h.fits;
    within = h.within;
    history = h.history;
    producer_ok = h.producer_ok;
    consumer_ok = can;
    who_closed = λ e. elim (h.who_closed e) [ inl g ↦ inl g | inr g ↦ absurd (here g) ];
    while_closing = wc;
    at_end = ae;
  }

  -- A store at the tail.
  tail-Slots :
      {n : ℕ} {f : ℕ → Node A} (t : ℕ) (b : List (Node A)) (v : Node A)
      → Slots n t f b
      → Slots n t (λ i. if i == 0 then v else f i) (set b t v)
  tail-Slots {n} {f} t b v h =
      subst (λ k. Slots n t (λ i. if i == 0 then v else f i) (set b k v)) (mod-add-zero n t h.start)
        (Slots-set h 0 v (omega (arith, h.start)))

  pub ready-Slots :
      {n : ℕ} (x : A) (q : List A) (p : Producer A) (t : ℕ) (b : List (Node A))
      → Slots n t (expected (x ∷ q) p ready) b
      → Slots n t
          (expected (x ∷ q) p (taken x))
          (set b t (record { content = none; is_set = true }))
  ready-Slots x q p t b h = Slots-ext (tail-Slots t b _ h) _ (λ i _. same i)
    where
      same :
          (i : ℕ)
          → (if i == 0
              then record { content = none; is_set = true }
              else expected (x ∷ q) p ready i)
            ≡ expected (x ∷ q) p (taken x) i
      same zero = sym (if-ne 0 (suc (length q)) (behind p) (omega arith))
      same (suc i) =
          if-ne (suc i) 0 _ (omega arith)
          ∙ ap (λ k. if suc i == suc (length q) then behind p else k)
              (if-ne (suc i) 0 _ (omega arith) ∙ sym (if-ne (suc i) 0 _ (omega arith)))

  pub taken-Slots :
      {n : ℕ} (x y : A) (q : List A) (p : Producer A) (t : ℕ) (b : List (Node A))
      → Slots n t (expected (y ∷ q) p (taken x)) b
      → ProducerOk n (suc (length q)) p
      → suc (length q) ≤ n
      → Slots n ((t + 1) % n) (expected q p Consumer.resting) (set b t Node.new)
  taken-Slots {n} x y q p t b h can fits =
      Slots-ext (Slots-rotate (tail-Slots t b Node.new h)) _ (λ i _. elim (ℕ_discrete (i + 1) n) [
        | yes e ↦ if-eq (i + 1) n _ e ∙ expected-last n p q i can fits e
        | no ne ↦
            if-ne (i + 1) n _ ne ∙ if-ne (i + 1) 0 Node.new (omega arith) ∙ expected-cons p y q i
      ])
