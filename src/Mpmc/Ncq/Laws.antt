-- ===== src/Mpmc/Ncq/Laws.antt =====
-- `enqueue` and `dequeue` of src/queues/mpmc/queue/ncq.rs are those of a queue of indices.
use nolock.Prelude.{
  ℕ, suc, ◌+◌, ◌/◌, ◌%◌, ◌^◌, ◌<◌, ◌≡◌, refl, ap, ◌∙◌, inl, inr, none, some, List, [], ◌∷◌, ◌++◌,
  length, set, arith, length-replicate, get_elem?-replicate,
}
use native.Mathlib.Nat.{mod-lt, add-div_left, div-eq_of_lt}
use nolock.Mpmc.NcqEntry
use nolock.Mpmc.NcqEntry.{entry_fields}
use nolock.Mpmc.Ncq.{Queue, new, enqueue_loop, enqueue, dequeue}
use nolock.Mpmc.Ncq.Holds.{Holds}
use nolock.Mpmc.Ncq.Rounds.{place_round, help_round, take_round, empty_round}
use nolock.Mpmc.Ncq.Keeps.{place-Holds, take-Holds, help-Holds}

zero_cycle : NcqEntry.cycle 0 ≡ 0
unfolding NcqEntry.cycle
zero_cycle = refl

first_round : (n i : ℕ) → i < n → (n + i) / n ≡ 1
first_round n i hi = omega (arith, add-div_left i {k = n} (omega arith), div-eq_of_lt hi)

-- A new queue is empty, where its buffer has the capacity that was asked for.
pub new-Holds :
    (with_capacity : ℕ → ℕ) (n k : ℕ)
    → with_capacity n ≡ n
    → 0 < n
    → n + k < 2 ^ 64
    → Holds n k [] (new with_capacity n)
unfolding new
new-Holds with_capacity n k exact pos budget = record {
  pos = pos;
  size = length-replicate n 0;
  full_size = exact;
  fits = omega arith;
  words = λ i x e. cc;
  written = inl (omega arith);
  budget = omega arith;
  items = λ i x e. cc;
  free = λ i lo hi. (
    0,
    get_elem?-replicate n _ 0 (mod-lt (n + i) {m = n} pos),
    ap (λ c. (c + 1) % 2 ^ 32) zero_cycle ∙ omega (arith, first_round n i hi),
  );
}

place :
    {n k : ℕ} {l : List ℕ} {q : Queue} (fuel i : ℕ)
    → Holds n (suc k) l q
    → q.tail ≡ q.head + length l
    → length l < n
    → i < 2 ^ 32
    → (q' : Queue) × (enqueue (suc fuel) q i ≡ some q') × Holds n k (l ++ (i ∷ [])) q'
unfolding enqueue enqueue_loop
place {n} {k} {l} {q} fuel i h at room small = (
  record q {
    entries = set q.entries (q.tail % n) (NcqEntry.value (q.tail / n % 2 ^ 32) i);
    tail = q.tail + 1;
  },
  ground (arith, place_round h i at room, h.budget),
  place-Holds i (q.tail + 1) h at room small (inr refl),
)

-- An index below 2 ^ 32 goes behind the others of a queue with room, in two rounds at most, also
-- where the tail stands one short.
pub enqueue-Holds :
    {n k : ℕ} {l : List ℕ} {q : Queue} (fuel i : ℕ)
    → Holds n (suc k) l q
    → length l < n
    → i < 2 ^ 32
    → (q' : Queue) × (enqueue (suc (suc fuel)) q i ≡ some q') × Holds n k (l ++ (i ∷ [])) q'
unfolding enqueue enqueue_loop
enqueue-Holds {n} {k} {l} {q} fuel i h room small = elim h.written [
  | inl at ↦ place (suc fuel) i h at room small
  | inr short ↦
      let (q', e, h') = place fuel i (help-Holds h short) short room small in
      (q', rw (help_round h i short (omega (arith, h.budget)), enqueue, enqueue_loop) e, h')
]

-- The first index comes out, in one round.
pub dequeue-cons :
    {n k : ℕ} {x : ℕ} {l : List ℕ} {q : Queue} (fuel : ℕ)
    → Holds n (suc k) (x ∷ l) q
    → (q' : Queue) × (dequeue (suc fuel) q ≡ some (some x, q')) × Holds n k l q'
unfolding dequeue
dequeue-cons {q} fuel h =
    (record q { head = q.head + 1 }, rw (take_round h refl, dequeue), take-Holds h)

-- An empty queue says so.
pub dequeue-nil :
    {n k : ℕ} {q : Queue} (fuel : ℕ) → Holds n k [] q → dequeue (suc fuel) q ≡ some (none, q)
unfolding dequeue
dequeue-nil fuel h = rw (empty_round h refl, dequeue)
