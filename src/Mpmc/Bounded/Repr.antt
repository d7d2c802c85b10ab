-- ===== src/Mpmc/Bounded/Repr.antt =====
-- How the buffer and the two index queues of src/queues/mpmc/queue.rs hold the items.
use nolock.Prelude.{
  ℕ, Once-ne_before, suc, ◌^◌, ◌≤◌, ◌≡◌, refl, sym, ap, ◌∙◌, Bool, inl, inr, none, some, List, [],
  ◌∷◌, ◌++◌, length, get_elem?, set, arith, if◌then◌else◌, length-set, length-append, append_assoc,
  get_elem?-set_ne, get_elem?-set_self, get_elem?-append_cases, get_elem?-append_lt,
  get_elem?-append_last, lt_of_get_elem?, subst,
}
use nolock.Mpmc.Underlying.{UnderlyingQueue}
use nolock.Mpmc.Bounded.{Channel}
use nolock.Mpmc.Bounded.Spec.{Fifo}
use nolock.Mpmc.Bounded.Distinct.{Distinct, Distinct-rotate, Distinct-lt}

-- The number of halves of a kind that are left.
abbrev pub count : Bool → ℕ
count b = if b then 1 else 0

module _ (u : UnderlyingQueue) where
  open u use {Queue, Holds}

  -- The channel `s` with `n` entries stands for `q`: the entries `used` hold its items in order, the
  -- entries `free` none, and `k` more operations stay within the index queues' counters.
  pub record Represents {ℓ} {A : Type ℓ} (n k : ℕ) (used free : List ℕ) (q : Fifo A)
      (s : Channel Queue A) : Type ℓ where
    pub aq_holds : Holds n k used s.aq
    pub fq_holds : Holds n k free s.fq
    pub distinct : Distinct n (used ++ free)
    pub as_many : length used ≡ length q.items
    pub size : length s.buffer ≡ n
    pub within : n ≤ 2 ^ 32
    pub receiver_count : s.rx_count ≡ count q.receiver
    pub sender_count : s.tx_count ≡ count q.sender
    pub stored :
        (i x : ℕ)
        → get_elem? used i ≡ some x
        → (v : A) × (get_elem? q.items i ≡ some v) × (get_elem? s.buffer x ≡ some (some v))

  module _ {ℓ} {A : Type ℓ} {n : ℕ} where
    -- The item `v` goes into the first free entry.
    pub push-Represents :
        {k k' x : ℕ} {used free : List ℕ} {q : Fifo A} {s : Channel Queue A} {aq fq : Queue} (v : A)
        → Represents n k used (x ∷ free) q s
        → Holds n k' (used ++ (x ∷ [])) aq
        → Holds n k' free fq
        → Represents n k'
            (used ++ (x ∷ []))
            free
            (record q { items = q.items ++ (v ∷ []) })
            (record s { buffer = set s.buffer x (some v); aq = aq; fq = fq })
    push-Represents {x} {used} {free} {q} {s} v r ha hf = record {
      aq_holds = ha;
      fq_holds = hf;
      distinct = subst (Distinct n) (sym (append_assoc used (x ∷ []) free)) r.distinct;
      as_many =
          omega (arith, r.as_many, length-append used (x ∷ []), length-append q.items (v ∷ []));
      size = length-set s.buffer x (some v) ∙ r.size;
      within = r.within;
      receiver_count = r.receiver_count;
      sender_count = r.sender_count;
      stored = λ i y e. elim (get_elem?-append_cases used x i y e) [
        | inl (lt, f) ↦
            let (w, item, entry) = r.stored i y f in
            (
              w,
              get_elem?-append_lt q.items (v ∷ []) i (omega (arith, r.as_many)) ∙ item,
              get_elem?-set_ne s.buffer x y (some v)
                    (Once-ne_before used free x r.distinct.once i y f)
                  ∙ entry,
            )
        | inr (at, f) ↦ (
          v,
          ap (get_elem? (q.items ++ (v ∷ []))) (at ∙ r.as_many) ∙ get_elem?-append_last q.items v,
          ap (get_elem? (set s.buffer x (some v))) f
              ∙ get_elem?-set_self s.buffer x (some v)
                  (omega (arith, r.size, Distinct-lt used free r.distinct)),
        )
      ];
    }

    -- The first item leaves its entry, which goes behind the other free ones.
    pub pop-Represents :
        {k k' x : ℕ} {used free : List ℕ} {v : A} {l : List A} {rx tx : Bool} {s : Channel Queue A}
        {aq fq : Queue}
        → Represents n k (x ∷ used) free (record { items = v ∷ l; receiver = rx; sender = tx }) s
        → Holds n k' used aq
        → Holds n k' (free ++ (x ∷ [])) fq
        → Represents n k' used
            (free ++ (x ∷ []))
            (record { items = l; receiver = rx; sender = tx })
            (record s { buffer = set s.buffer x none; aq = aq; fq = fq })
    pop-Represents {x} {used} {free} {v} {l} {s} r ha hf = record {
      aq_holds = ha;
      fq_holds = hf;
      distinct =
          subst (Distinct n) (append_assoc used free (x ∷ []))
            (Distinct-rotate n x (used ++ free) r.distinct);
      as_many = omega (arith, r.as_many);
      size = length-set s.buffer x none ∙ r.size;
      within = r.within;
      receiver_count = r.receiver_count;
      sender_count = r.sender_count;
      stored = λ i y e.
          let (w, item, entry) = r.stored (suc i) y e in
          let lt = lt_of_get_elem? used i y e in
          (
            w,
            item,
            get_elem?-set_ne s.buffer x y none (λ same. absurd (
                  omega (
                    arith,
                    r.distinct.once 0 (suc i) x refl
                        (get_elem?-append_lt used free i lt ∙ e ∙ ap some (sym same)),
                  )))
                ∙ entry,
          );
    }
