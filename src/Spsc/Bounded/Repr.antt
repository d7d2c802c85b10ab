-- ===== src/Spsc/Bounded/Repr.antt =====
-- How the ring of src/queues/spsc/bounded.rs holds its items: from `tail` on, round the buffer.
use nolock.Prelude.{
  ℕ, ◌+◌, ◌%◌, ◌<◌, ◌≤◌, ◌≡◌, ◌≢◌, refl, ◌∙◌, ap, sym, some, List, subst, mod-add-one, mod-add-zero,
  mod-add_self, [], ◌∷◌, ◌++◌, length, get_elem?, set, arith, mod-cases, mod-add-ne, length-set,
  get_elem?-set_self, get_elem?-none, lt_of_get_elem?, get_elem?-set_ne, get_elem?-append_lt,
  get_elem?-append_last, length-append, dec_lt, ℕ_discrete,
}
use native.Mathlib.Numerals.{add-one}
use nolock.Spsc.Node
use nolock.Spsc.Node.{Node}

module _ {ℓ} {A : Type ℓ} where
  -- The buffer `b` of `n` entries holds exactly `q`, from the index `t` on.
  pub record Holds (n t : ℕ) (q : List A) (b : List (Node A)) : Type ℓ where
    pub size : length b ≡ n
    pub fits : length q ≤ n
    pub start : t < n
    pub items :
        (i : ℕ) (x : A) → get_elem? q i ≡ some x → get_elem? b ((t + i) % n) ≡ some (Node.filled x)
    pub free : (i : ℕ) → length q ≤ i → i < n → get_elem? b ((t + i) % n) ≡ some Node.new

  module _ {n t : ℕ} {q : List A} {b : List (Node A)} (h : Holds n t q b) where
    open h use {size, fits, start, items, free}

    slot-lt : (i : ℕ) → i ≤ n → (t + i) % n < n
    slot-lt i hi = omega (arith, start, mod-cases n t i start hi)

    -- A store at another slot than `i`'s is not seen at `i`.
    get_elem?-slot :
        (i j : ℕ) (v : Node A)
        → i < n
        → j < n
        → i ≢ j
        → get_elem? (set b ((t + j) % n) v) ((t + i) % n) ≡ get_elem? b ((t + i) % n)
    get_elem?-slot i j v hi hj ne =
        get_elem?-set_ne b ((t + j) % n) ((t + i) % n) v
          (mod-add-ne n t j i start hj hi (λ e. ne (sym e)))

    get_elem?-slot_self :
        (i : ℕ) (v : Node A) → i < n → get_elem? (set b ((t + i) % n) v) ((t + i) % n) ≡ some v
    get_elem?-slot_self i v hi =
        get_elem?-set_self b _ v (omega (arith, size, slot-lt i (omega arith)))

    -- A new item goes to the slot behind the last one.
    pub Holds-push :
        (x : A)
        → length q < n
        → Holds n t (q ++ (x ∷ [])) (set b ((t + length q) % n) (Node.filled x))
    Holds-push x room = record {
      size = length-set b _ _ ∙ size;
      fits = omega (arith, length-append q (x ∷ []));
      start = start;
      items = λ i y e. elim (dec_lt i (length q)) [
        | yes lt ↦
            get_elem?-slot i (length q) _ (omega arith) room (omega arith)
            ∙ items i y (sym (get_elem?-append_lt q (x ∷ []) i lt) ∙ e)
        | no ge ↦ last i y e ge
      ];
      free = λ i lo hi. elim (ℕ_discrete i (length q)) [
        | yes e ↦ absurd (omega (arith, length-append q (x ∷ [])))
        | no ne ↦
            get_elem?-slot i (length q) _ hi room ne
            ∙ free i (omega (arith, length-append q (x ∷ []))) hi
      ];
    }
      where
        last :
            (i : ℕ) (y : A)
            → get_elem? (q ++ (x ∷ [])) i ≡ some y
            → ¬ (i < length q)
            → get_elem? (set b ((t + length q) % n) (Node.filled x)) ((t + i) % n)
              ≡ some (Node.filled y)
        last i y e ge = elim (ℕ_discrete i (length q)) [
          | yes same ↦ rw same (
              get_elem?-slot_self (length q) _ room
              ∙ ap (λ z. some (Node.filled z))
                  (cc (
                    get_elem?-append_last q x,
                    subst (λ k. get_elem? (q ++ (x ∷ [])) k ≡ some y) same e,
                  )))
          | no ne ↦
              cc (e, get_elem?-none (q ++ (x ∷ [])) i (omega (arith, length-append q (x ∷ []))))
        ]

  -- The first item leaves its slot, and the next slot becomes the first.
  pub Holds-pop :
      {n t : ℕ} {x : A} {q : List A} {b : List (Node A)}
      → Holds n t (x ∷ q) b
      → Holds n ((t + 1) % n) q (set b t Node.new)
  Holds-pop {n} {t} {x} {q} {b} h = record {
    size = length-set b _ _ ∙ h.size;
    fits = omega arith;
    start = slot-lt h 1 (omega arith);
    items = λ i y e.
        other (i + 1) (omega (arith, lt_of_get_elem? q i y e)) (omega arith) (mod-add-one n t i)
        ∙ h.items (i + 1) y (rw add-one e);
    free = λ i lo hi. elim (dec_lt (i + 1) n) [
      | yes lt ↦
          other (i + 1) lt (omega arith) (mod-add-one n t i) ∙ h.free (i + 1) (omega arith) lt
      | no ge ↦ rw (mod-add-one n t i) (
          subst (λ k. get_elem? (set b t Node.new) k ≡ some Node.new)
            (sym (mod-add_self n t h.start) ∙ ap (λ k. (t + k) % n) (omega arith))
            (get_elem?-set_self b t _ (omega (arith, h.size, h.start))))
    ];
  }
    where
      other :
          (j : ℕ) {k : ℕ}
          → j < n
          → 0 < j
          → k ≡ (t + j) % n
          → get_elem? (set b t Node.new) k ≡ get_elem? b ((t + j) % n)
      other j {k} lt pos e = rw e (
          subst (λ z. get_elem? (set b z Node.new) ((t + j) % n) ≡ get_elem? b ((t + j) % n))
            (mod-add-zero n t h.start) (get_elem?-slot h j 0 _ lt (omega arith) (omega arith)))

  -- What the receiver finds at its index, and the sender at its own.
  pub Holds-first :
      {n t : ℕ} {x : A} {q : List A} {b : List (Node A)}
      → Holds n t (x ∷ q) b
      → get_elem? b t ≡ some (Node.filled x)
  Holds-first {n} {t} {x} h = rw (← mod-add-zero n t h.start) (h.items 0 x refl)

  pub Holds-nil : {n t : ℕ} {b : List (Node A)} → Holds n t [] b → get_elem? b t ≡ some Node.new
  Holds-nil {n} {t} h =
      rw (← mod-add-zero n t h.start) (h.free 0 (omega arith) (omega (arith, h.start)))

  pub Holds-full :
      {n t : ℕ} (q : List A) {b : List (Node A)}
      → Holds n t q b
      → length q ≡ n
      → (x : A) × (get_elem? b ((t + length q) % n) ≡ some (Node.filled x))
  Holds-full [] h e = absurd (omega (arith, h.start))
  Holds-full {n} {t} (x ∷ q) h e = (x, rw (e, mod-add_self n t h.start) (Holds-first h))
