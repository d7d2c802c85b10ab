-- ===== src/Mpmc/Scq/Laws.antt =====
-- `enqueue` and `dequeue` of src/queues/mpmc/queue/scq.rs are those of a queue of indices.
use nolock.Prelude.{
  ℕ, suc, ◌+◌, ◌-◌, ◌*◌, ◌/◌, ◌%◌, ◌^◌, ◌<◌, ◌≤◌, ◌≡◌, refl, sym, ap, ◌∙◌, inl, inr, true, none,
  some, List, [], ◌∷◌, ◌++◌, length, get_elem?, set, arith, length-replicate, get_elem?-replicate,
  dec_lt,
}
use native.Mathlib.Nat.{mod-lt, add-div_left, div-eq_of_lt}
use nolock.Mpmc.ScqEntry
use nolock.Mpmc.Scq.{Queue, new, enqueue_entry, enqueue, dequeue_entry, dequeue_loop, dequeue}
use nolock.Mpmc.Scq.Holds.{Holds}
use nolock.Mpmc.Scq.Passes.{place_pass, skip_pass, take_pass, miss_pass}
use nolock.Mpmc.Scq.Keeps.{place-Holds, skip-Holds, take-Holds, miss-Holds, weaken-Holds}

first_round : (n i : ℕ) → i < n → (n + i) / n ≡ 1
first_round n i hi = omega (arith, add-div_left i {k = n} (omega arith), div-eq_of_lt hi)

-- A new queue is empty.
pub new-Holds : (n k : ℕ) → 0 < n → n ≤ 2 ^ 32 → n * 2 + k < 2 ^ 31 * (n * 2) → Holds n k [] (new n)
unfolding new
new-Holds n k pos small budget = record {
  pos = pos;
  small = small;
  for_size = refl;
  invalid = omega arith;
  full_size = length-replicate (2 * n) _ ∙ omega arith;
  fits = omega arith;
  words = λ i x e. cc;
  budget = omega arith;
  live = λ some_item. absurd (omega arith);
  ceiling = inr (omega arith);
  written = inl (omega arith);
  items = λ i x e. cc;
  free = λ i lo hi. (
    0,
    get_elem?-replicate (2 * n) _ _ (omega (arith, mod-lt (n * 2 + i) {m = n * 2} (omega arith))),
    omega (arith, first_round (n * 2) i hi),
  );
}

module _ {n k : ℕ} where
  place :
      {l : List ℕ} {q : Queue} (fuel i : ℕ)
      → Holds n (suc k) l q
      → q.tail ≡ q.head + length l
      → length l < n
      → i < 2 ^ 32
      → (q' : Queue) × (enqueue (suc fuel) q i ≡ some q') × Holds n k (l ++ (i ∷ [])) q'
  unfolding enqueue enqueue_entry
  place {l} {q} fuel i h at room word = (
    record q {
      entries = set q.entries (q.tail % (n * 2)) (ScqEntry.new true (q.tail / (n * 2)) i);
      tail = q.tail + 1;
      threshold = n * 3 - 1;
    },
    ground (arith, place_pass h i at room word, h.budget, h.small),
    place-Holds i h at room word,
  )

  -- An index below 2 ^ 32 goes behind the others of a queue with room, in two rounds at most.
  pub enqueue-Holds :
      {l : List ℕ} {q : Queue} (fuel i : ℕ)
      → Holds n (suc k) l q
      → length l < n
      → i < 2 ^ 32
      → (q' : Queue) × (enqueue (suc (suc fuel)) q i ≡ some q') × Holds n k (l ++ (i ∷ [])) q'
  unfolding enqueue enqueue_entry
  enqueue-Holds {l} {q} fuel i h room word = elim h.written [
    | inl at ↦ place (suc fuel) i h at room word
    | inr (empty, at, given) ↦ behind l h empty at given
  ]
    where
      behind :
          (l : List ℕ)
          → Holds n (suc k) l q
          → length l ≡ 0
          → q.head ≡ q.tail + 1
          → get_elem? q.entries (q.tail % (n * 2))
            ≡ some (ScqEntry.new true (q.tail / (n * 2)) q.invalid_index)
          → (q' : Queue) × (enqueue (suc (suc fuel)) q i ≡ some q') × Holds n k (l ++ (i ∷ [])) q'
      behind (x ∷ l) h none_left at given = absurd (omega arith)
      behind [] h none_left at given =
          let (q', e, h') = place fuel i (skip-Holds h at) (omega arith) h.pos word in
          (q', ground (arith, skip_pass h i at given, e, h.budget, h.small), h')

  -- The first index comes out, in one round, whatever the tail says.
  pub dequeue-cons_tail :
      {x : ℕ} {l : List ℕ} {q : Queue} (fuel t : ℕ)
      → Holds n (suc k) (x ∷ l) q
      → (q' : Queue) × (dequeue (suc fuel) (record q { tail = t })
          ≡ some (some x, record q' { tail = t }))
        × (q'.tail ≡ q.tail)
        × Holds n k l q'
  unfolding dequeue dequeue_loop dequeue_entry
  dequeue-cons_tail {x} {l} {q} fuel t h = (
    record q {
      entries =
          set q.entries (q.head % (n * 2)) (ScqEntry.new true (q.head / (n * 2)) q.invalid_index);
      head = q.head + 1;
    },
    ground (arith, take_pass h (suc fuel) t refl, h.live (omega arith), h.budget, h.small),
    refl,
    take-Holds h,
  )

  pub dequeue-cons :
      {x : ℕ} {l : List ℕ} {q : Queue} (fuel : ℕ)
      → Holds n (suc k) (x ∷ l) q
      → (q' : Queue) × (dequeue (suc fuel) q ≡ some (some x, q')) × Holds n k l q'
  dequeue-cons {x} {l} {q} fuel h =
      let (q', e, same, h') = dequeue-cons_tail fuel q.tail h in
      (q', e ∙ ap (λ t. some (some x, record q' { tail = t })) (sym same), h')

  -- An empty queue says so, in one round.
  pub dequeue-nil :
      {q : Queue} (fuel : ℕ)
      → Holds n (suc k) [] q
      → (q' : Queue) × (dequeue (suc fuel) q ≡ some (none, q')) × Holds n k [] q'
  unfolding dequeue dequeue_loop dequeue_entry
  dequeue-nil {q} fuel h = elim (dec_lt q.threshold (2 ^ 63)) [
    | yes lt ↦ (
      record q {
        entries =
            set q.entries (q.head % (n * 2)) (ScqEntry.new true (q.head / (n * 2)) q.invalid_index);
        head = q.head + 1;
        tail = q.head;
        threshold = (q.threshold + (2 ^ 64 - 1)) % 2 ^ 64;
      },
      ground (arith, miss_pass h fuel refl, h.budget, h.small),
      miss-Holds h lt,
    )
    | no ge ↦ (q, ground arith, weaken-Holds h)
  ]
