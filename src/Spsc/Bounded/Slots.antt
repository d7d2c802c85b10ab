-- ===== src/Spsc/Bounded/Slots.antt =====
-- A buffer read from an index on, round its end: what each of its `n` slots holds.
use nolock.Prelude.{
  ℕ, ◌+◌, ◌%◌, ◌<◌, ◌≡◌, sym, ◌∙◌, ap, some, List, length, get_elem?, set, arith, ◌==◌,
  if◌then◌else◌, length-set, get_elem?-set_self, get_elem?-set_ne, mod-cases, mod-add-ne,
  mod-add-one, mod-add-zero, mod-add_self, ℕ_discrete,
}

module _ {ℓ} {A : Type ℓ} where
  pub record Slots (n t : ℕ) (f : ℕ → A) (b : List A) : Type ℓ where
    pub size : length b ≡ n
    pub start : t < n
    pub at : (i : ℕ) → i < n → get_elem? b ((t + i) % n) ≡ some (f i)

  module _ {n t : ℕ} {f : ℕ → A} {b : List A} (h : Slots n t f b) where
    pub Slots-ext : (g : ℕ → A) → ((i : ℕ) → i < n → f i ≡ g i) → Slots n t g b
    Slots-ext g e = record {
      size = h.size;
      start = h.start;
      at = λ i lt. h.at i lt ∙ ap some (e i lt);
    }

    pub Slots-set :
        (j : ℕ) (v : A) → j < n → Slots n t (λ i. if i == j then v else f i) (set b ((t + j) % n) v)
    Slots-set j v lt = record {
      size = length-set b _ v ∙ h.size;
      start = h.start;
      at = λ i hi. elim (ℕ_discrete i j) [
        | yes e ↦ ground (arith, get_elem?-set_self b ((t + j) % n) v inside, e)
        | no ne ↦ ground (
          arith,
          get_elem?-set_ne b ((t + j) % n) ((t + i) % n) v
              (mod-add-ne n t j i h.start lt hi (λ e. ne (sym e))),
          h.at i hi,
        )
      ];
    }
      where
        inside : (t + j) % n < length b
        inside = omega (arith, h.size, mod-cases n t j h.start)

    -- The slot that was first becomes the last.
    pub Slots-rotate : Slots n ((t + 1) % n) (λ i. if i + 1 == n then f 0 else f (i + 1)) b
    Slots-rotate = record {
      size = h.size;
      start = omega (arith, h.start, mod-cases n t 1 h.start);
      at = λ i hi. elim (ℕ_discrete (i + 1) n) [
        | yes e ↦ rw (first i e) (ground (arith, h.at 0 (omega arith)))
        | no ne ↦ rw (mod-add-one n t i) (ground (arith, h.at (i + 1) (omega arith)))
      ];
    }
      where
        first : (i : ℕ) → i + 1 ≡ n → ((t + 1) % n + i) % n ≡ (t + 0) % n
        first i e =
            mod-add-one n t i
            ∙ ap (λ k. (t + k) % n) e
            ∙ mod-add_self n t h.start
            ∙ sym (mod-add-zero n t h.start)
