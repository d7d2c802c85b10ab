-- ===== src/Mpmc/Ncq/Keeps.antt =====
-- What the queue of src/queues/mpmc/queue/ncq.rs holds after an index is placed or taken.
use nolock.Prelude.{
  ℕ, suc, ◌+◌, ◌/◌, ◌%◌, ◌^◌, ◌<◌, ◌≡◌, ◌≢◌, refl, sym, ap, ap₂, ◌∙◌, ◌⊎◌, inl, inr, some, List, [],
  ◌∷◌, ◌++◌, length, get_elem?, set, arith, mod-add-ne_at, get_elem?-append_cases, length-append,
  length-set, get_elem?-set_self, get_elem?-set_ne, dec_lt, subst, add-mod_self,
}
use native.Mathlib.Nat.{add-zero, mod-lt}
use nolock.Mpmc.NcqEntry
use nolock.Mpmc.NcqEntry.{entry_fields}
use nolock.Mpmc.Ncq.{Queue}
use nolock.Mpmc.Ncq.Holds.{Holds}

-- The queue after an index has been placed in the entry of its tail.
pub place-Holds :
    {n k : ℕ} {l : List ℕ} {q : Queue} (i t : ℕ)
    → Holds n (suc k) l q
    → q.tail ≡ q.head + length l
    → length l < n
    → i < 2 ^ 32
    → (t ≡ q.tail) ⊎ (t ≡ q.tail + 1)
    → Holds n k (l ++ (i ∷ [])) (record q {
      entries = set q.entries (q.tail % n) (NcqEntry.value (q.tail / n % 2 ^ 32) i);
      tail = t;
    })
place-Holds {n} {k} {l} {q} i t h at room small moved = record {
  pos = h.pos;
  size = length-set q.entries _ _ ∙ h.size;
  full_size = h.full_size;
  fits = omega (arith, length-append l (i ∷ []));
  words = λ j x e. elim (get_elem?-append_cases l i j x e) [
    | inl (lt, f) ↦ h.words j x f
    | inr (f, g) ↦ omega arith
  ];
  written = omega (arith, length-append l (i ∷ []));
  budget = omega (arith, h.budget, length-append l (i ∷ []));
  items = λ j x e. elim (get_elem?-append_cases l i j x e) [
    | inl (lt, f) ↦ other j (omega arith) (omega arith) ∙ h.items j x f
    | inr (f, g) ↦ here j x f g
  ];
  free = λ j lo hi.
      let (e, found, before) = h.free j (omega (arith, length-append l (i ∷ []))) hi in
      (e, other j hi (omega (arith, length-append l (i ∷ []))) ∙ found, before);
}
  where
    v : ℕ
    v = NcqEntry.value (q.tail / n % 2 ^ 32) i

    other :
        (j : ℕ)
        → j < n
        → j ≢ length l
        → get_elem? (set q.entries (q.tail % n) v) ((q.head + j) % n)
          ≡ get_elem? q.entries ((q.head + j) % n)
    other j hi ne =
        get_elem?-set_ne q.entries (q.tail % n) ((q.head + j) % n) v
          (λ e. mod-add-ne_at n q.head j (length l) hi room ne (sym e ∙ ap (λ t. t % n) at))

    here :
        (j x : ℕ)
        → j ≡ length l
        → x ≡ i
        → get_elem? (set q.entries (q.tail % n) v) ((q.head + j) % n)
          ≡ some (NcqEntry.value ((q.head + j) / n % 2 ^ 32) x)
    here j x f g =
        let p : q.head + j ≡ q.tail = omega arith in
        ap (λ p. get_elem? (set q.entries (q.tail % n) v) (p % n)) p
        ∙ get_elem?-set_self q.entries (q.tail % n) v
            (omega (arith, h.size, mod-lt q.tail {m = n} h.pos))
        ∙ ap₂ (λ p y. some (NcqEntry.value (p / n % 2 ^ 32) y)) (sym p) (sym g)

-- The queue after its first item has been taken.
pub take-Holds :
    {n k : ℕ} {x : ℕ} {l : List ℕ} {q : Queue}
    → Holds n (suc k) (x ∷ l) q
    → Holds n k l (record q { head = q.head + 1 })
take-Holds {n} {k} {x} {l} {q} h = record {
  pos = h.pos;
  size = h.size;
  full_size = h.full_size;
  fits = omega (arith, h.fits);
  words = λ j y e. h.words (suc j) y e;
  written = omega (arith, h.written);
  budget = omega (arith, h.budget);
  items = λ j y e.
      subst (λ p. get_elem? q.entries (p % n) ≡ some (NcqEntry.value (p / n % 2 ^ 32) y))
        (omega arith) (h.items (suc j) y e);
  free = λ j lo hi. elim (dec_lt (j + 1) n) [
    | yes lt ↦
        subst
          (λ p.
            (e : ℕ) × (get_elem? q.entries (p % n) ≡ some e)
            × ((NcqEntry.cycle e + 1) % 2 ^ 32 ≡ p / n % 2 ^ 32))
          (omega arith) (h.free (j + 1) (omega arith) lt)
    | no ge ↦
        subst
          (λ p.
            (e : ℕ) × (get_elem? q.entries (p % n) ≡ some e)
            × ((NcqEntry.cycle e + 1) % 2 ^ 32 ≡ p / n % 2 ^ 32))
          (omega arith) left
  ];
}
  where
    -- The entry of the item that left is free in the next round.
    left :
        (e : ℕ) × (get_elem? q.entries ((q.head + n) % n) ≡ some e)
        × ((NcqEntry.cycle e + 1) % 2 ^ 32 ≡ (q.head + n) / n % 2 ^ 32)
    left =
        let (same, later) = add-mod_self n q.head h.pos in
        (
          NcqEntry.value (q.head / n % 2 ^ 32) x,
          ap (get_elem? q.entries) same
              ∙ ap (λ p. get_elem? q.entries (p % n)) (sym (add-zero q.head))
              ∙ h.items 0 x refl
              ∙ ap (λ p. some (NcqEntry.value (p / n % 2 ^ 32) x)) (add-zero q.head),
          ap (λ c. (c + 1) % 2 ^ 32)
                (entry_fields (q.head / n % 2 ^ 32) x (omega arith) (h.words 0 x refl)).0
              ∙ omega (arith, later),
        )

-- A tail that stands one short is moved on.
pub help-Holds :
    {n k : ℕ} {l : List ℕ} {q : Queue}
    → Holds n k l q
    → q.tail + 1 ≡ q.head + length l
    → Holds n k l (record q { tail = q.tail + 1 })
help-Holds h at = record {
  pos = h.pos;
  size = h.size;
  full_size = h.full_size;
  fits = h.fits;
  words = h.words;
  written = inl at;
  budget = h.budget;
  items = h.items;
  free = h.free;
}
