-- ===== src/Mpmc/Scq/Keeps.antt =====
-- What the queue of src/queues/mpmc/queue/scq.rs holds after an index is placed or taken, or an entry
-- given up.
use nolock.Prelude.{
  ℕ, zero, suc, ◌+◌, ◌-◌, ◌*◌, ◌/◌, ◌%◌, ◌^◌, ◌<◌, ◌≤◌, ◌≡◌, ◌≢◌, ◌⊎◌, refl, sym, ap, ap₂, ◌∙◌, inl,
  inr, true, some, List, [], ◌∷◌, ◌++◌, length, get_elem?, set, arith, mod-add-ne_at,
  get_elem?-append_cases, length-append, length-set, get_elem?-set_self, get_elem?-set_ne, dec_lt,
  subst, add-mod_self, lt_of_get_elem?,
}
use native.Mathlib.Nat.{mod-lt}
use nolock.Mpmc.ScqEntry
use nolock.Mpmc.Scq.{Queue}
use nolock.Mpmc.Scq.Holds.{Holds}

-- A write to the slot of one position is not seen at another in reach.
other :
    {n k : ℕ} {l : List ℕ} {q : Queue} (v p i j : ℕ)
    → Holds n k l q
    → p ≡ q.head + j
    → i < n * 2
    → j < n * 2
    → i ≢ j
    → get_elem? (set q.entries (p % (n * 2)) v) ((q.head + i) % (n * 2))
      ≡ get_elem? q.entries ((q.head + i) % (n * 2))
other {n} {q} v p i j h at hi hj ne =
    get_elem?-set_ne q.entries (p % (n * 2)) ((q.head + i) % (n * 2)) v
      (λ e. mod-add-ne_at (n * 2) q.head i j hi hj ne (sym e ∙ ap (λ t. t % (n * 2)) at))

self :
    {n k : ℕ} {l : List ℕ} {q : Queue} (v p : ℕ)
    → Holds n k l q
    → get_elem? (set q.entries (p % (n * 2)) v) (p % (n * 2)) ≡ some v
self {n} {q} v p h =
    get_elem?-set_self q.entries (p % (n * 2)) v
      (omega (arith, h.full_size, mod-lt p {m = n * 2} (omega (arith, h.pos))))

-- The queue after an index has been placed in the entry of its tail.
pub place-Holds :
    {n k : ℕ} {l : List ℕ} {q : Queue} (i : ℕ)
    → Holds n (suc k) l q
    → q.tail ≡ q.head + length l
    → length l < n
    → i < 2 ^ 32
    → Holds n k (l ++ (i ∷ [])) (record q {
      entries = set q.entries (q.tail % (n * 2)) (ScqEntry.new true (q.tail / (n * 2)) i);
      tail = q.tail + 1;
      threshold = n * 3 - 1;
    })
place-Holds {n} {k} {l} {q} i h at room word = record {
  pos = h.pos;
  small = h.small;
  for_size = h.for_size;
  invalid = h.invalid;
  full_size = length-set q.entries _ _ ∙ h.full_size;
  fits = omega (arith, length-append l (i ∷ []));
  words = λ j x e. elim (get_elem?-append_cases l i j x e) [
    | inl (lt, f) ↦ h.words j x f
    | inr (f, g) ↦ omega arith
  ];
  budget = omega (arith, h.budget, length-append l (i ∷ []));
  live = λ some_item. omega (arith, h.small);
  ceiling = inl (omega (arith, h.pos));
  written = inl (omega (arith, length-append l (i ∷ [])));
  items = λ j x e. elim (get_elem?-append_cases l i j x e) [
    | inl (lt, f) ↦
        other v q.tail j (length l) h at (omega arith) (omega arith) (omega arith) ∙ h.items j x f
    | inr (f, g) ↦
        let p : q.head + j ≡ q.tail = omega arith in
        ap (λ p. get_elem? (set q.entries (q.tail % (n * 2)) v) (p % (n * 2))) p
        ∙ self v q.tail h
        ∙ ap₂ (λ p y. some (ScqEntry.new true (p / (n * 2)) y)) (sym p) (sym g)
  ];
  free = λ j lo hi.
      let (c, found, before) = h.free j (omega (arith, length-append l (i ∷ []))) hi in
      (
        c,
        other v q.tail j (length l) h at hi (omega arith) (omega (arith, length-append l (i ∷ [])))
            ∙ found,
        before,
      );
}
  where
    v : ℕ
    v = ScqEntry.new true (q.tail / (n * 2)) i

-- The tail moves over an entry that was given up.
pub skip-Holds :
    {n k : ℕ} {q : Queue}
    → Holds n k [] q
    → q.head ≡ q.tail + 1
    → Holds n k [] (record q { tail = q.tail + 1 })
skip-Holds h at = record {
  pos = h.pos;
  small = h.small;
  for_size = h.for_size;
  invalid = h.invalid;
  full_size = h.full_size;
  fits = h.fits;
  words = h.words;
  budget = h.budget;
  live = h.live;
  ceiling = h.ceiling;
  written = inl (omega arith);
  items = h.items;
  free = h.free;
}

-- Once the entry at the head is marked empty, every entry behind the items is free in the round
-- that starts one further on.
free_after :
    {n k : ℕ} {l : List ℕ} {q : Queue}
    → Holds n k l q
    → (j : ℕ) → length l ≤ suc j
    → j < n * 2
    → (c : ℕ) × (get_elem?
          (set q.entries (q.head % (n * 2)) (ScqEntry.new true (q.head / (n * 2)) q.invalid_index))
          ((q.head + 1 + j) % (n * 2))
        ≡ some (ScqEntry.new true c q.invalid_index))
      × (c < (q.head + 1 + j) / (n * 2))
free_after {n} {k} {l} {q} h j lo hi = elim (dec_lt (j + 1) (n * 2)) [
  | yes lt ↦
      let (c, found, before) = h.free (j + 1) (omega arith) lt in
      let p : q.head + (j + 1) ≡ q.head + 1 + j = omega arith in
      (
        c,
        ap (λ p. get_elem? (set q.entries (q.head % (n * 2)) v) (p % (n * 2))) (sym p)
            ∙ other v q.head (j + 1) 0 h (omega arith) lt (omega arith) (omega arith)
            ∙ found,
        subst (λ p. c < p / (n * 2)) p before,
      )
  | no ge ↦
      let p : q.head + n * 2 ≡ q.head + 1 + j = omega arith in
      let (same, later) = add-mod_self (n * 2) q.head (omega (arith, h.pos)) in
      (
        q.head / (n * 2),
        ap (λ p. get_elem? (set q.entries (q.head % (n * 2)) v) (p % (n * 2))) (sym p)
            ∙ ap (get_elem? (set q.entries (q.head % (n * 2)) v)) same
            ∙ self v q.head h,
        subst (λ p. q.head / (n * 2) < p / (n * 2)) p (omega (arith, later)),
      )
]
  where
    v : ℕ
    v = ScqEntry.new true (q.head / (n * 2)) q.invalid_index

-- The queue after its first item has been taken.
pub take-Holds :
    {n k : ℕ} {x : ℕ} {l : List ℕ} {q : Queue}
    → Holds n (suc k) (x ∷ l) q
    → Holds n k l (record q {
      entries =
          set q.entries (q.head % (n * 2)) (ScqEntry.new true (q.head / (n * 2)) q.invalid_index);
      head = q.head + 1;
    })
take-Holds {n} {k} {x} {l} {q} h = record {
  pos = h.pos;
  small = h.small;
  for_size = h.for_size;
  invalid = h.invalid;
  full_size = length-set q.entries _ _ ∙ h.full_size;
  fits = omega (arith, h.fits);
  words = λ j y e. h.words (suc j) y e;
  budget = omega (arith, h.budget);
  live = λ some_item. h.live (omega arith);
  ceiling = h.ceiling;
  written = inl (omega (arith, h.written));
  items = λ j y e.
      let p : q.head + suc j ≡ q.head + 1 + j = omega arith in
      let lt = lt_of_get_elem? l j y e in
      ap (λ p. get_elem? (set q.entries (q.head % (n * 2)) v) (p % (n * 2))) (sym p)
      ∙ other v q.head (suc j) 0 h (omega arith) (omega (arith, h.fits)) (omega (arith, h.pos))
          (omega arith)
      ∙ h.items (suc j) y e
      ∙ ap (λ p. some (ScqEntry.new true (p / (n * 2)) y)) p;
  free = λ j lo hi. free_after h j (omega arith) hi;
}
  where
    v : ℕ
    v = ScqEntry.new true (q.head / (n * 2)) q.invalid_index

-- A threshold that is not negative is at most one less afterwards, or negative.
lowered :
    (n t : ℕ)
    → n ≤ 2 ^ 32
    → t < 2 ^ 63
    → (t < n * 3) ⊎ (2 ^ 63 ≤ t)
    → ((t + (2 ^ 64 - 1)) % 2 ^ 64 < n * 3) ⊎ (2 ^ 63 ≤ (t + (2 ^ 64 - 1)) % 2 ^ 64)
lowered n zero small lt below = inr (omega arith)
lowered n (suc t) small lt below = inl (omega arith)

-- The queue after a dequeue that found nothing.
pub miss-Holds :
    {n k : ℕ} {q : Queue}
    → Holds n (suc k) [] q
    → q.threshold < 2 ^ 63
    → Holds n k [] (record q {
      entries =
          set q.entries (q.head % (n * 2)) (ScqEntry.new true (q.head / (n * 2)) q.invalid_index);
      head = q.head + 1;
      tail = q.head;
      threshold = (q.threshold + (2 ^ 64 - 1)) % 2 ^ 64;
    })
miss-Holds {n} {k} {q} h positive = record {
  pos = h.pos;
  small = h.small;
  for_size = h.for_size;
  invalid = h.invalid;
  full_size = length-set q.entries _ _ ∙ h.full_size;
  fits = h.fits;
  words = h.words;
  budget = omega (arith, h.budget);
  live = λ some_item. absurd (omega arith);
  ceiling = lowered n q.threshold (omega (arith, h.small)) positive h.ceiling;
  written = inr (refl, refl, self _ q.head h);
  items = λ j y e. cc;
  free = λ j lo hi. free_after h j (omega arith) hi;
}

pub less-Holds : {n j k : ℕ} {l : List ℕ} {q : Queue} → k ≤ j → Holds n j l q → Holds n k l q
less-Holds le h = record {
  pos = h.pos;
  small = h.small;
  for_size = h.for_size;
  invalid = h.invalid;
  full_size = h.full_size;
  fits = h.fits;
  words = h.words;
  budget = omega (arith, h.budget);
  live = h.live;
  ceiling = h.ceiling;
  written = h.written;
  items = h.items;
  free = h.free;
}

-- A threshold that is set again changes nothing else.
pub reset-Holds :
    {n k : ℕ} {l : List ℕ} {q : Queue}
    → Holds n k l q
    → Holds n k l (record q { threshold = n * 3 - 1 })
reset-Holds h = record {
  pos = h.pos;
  small = h.small;
  for_size = h.for_size;
  invalid = h.invalid;
  full_size = h.full_size;
  fits = h.fits;
  words = h.words;
  budget = h.budget;
  live = λ some_item. omega (arith, h.small);
  ceiling = inl (omega (arith, h.pos));
  written = h.written;
  items = h.items;
  free = h.free;
}

pub weaken-Holds : {n k : ℕ} {l : List ℕ} {q : Queue} → Holds n (suc k) l q → Holds n k l q
weaken-Holds h = less-Holds (omega arith) h
