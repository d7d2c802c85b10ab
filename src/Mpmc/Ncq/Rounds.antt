-- ===== src/Mpmc/Ncq/Rounds.antt =====
-- What one round of each loop of src/queues/mpmc/queue/ncq.rs does.
use nolock.Prelude.{
  ℕ, ◌+◌, ◌-◌, ◌/◌, ◌%◌, ◌^◌, ◌<◌, ◌≡◌, sym, ap, ap₂, ◌∙◌, none, some, List, length, get_elem?, set,
  arith, get_elem?_of_lt, lt_of_get_elem?, dec_lt, add-mod_self,
}
use native.Mathlib.Nat.{add-zero}
use nolock.Mpmc.NcqEntry
use nolock.Mpmc.NcqEntry.{entry_fields, cycle-lt}
use nolock.Mpmc.Ncq.{Queue, cycle, enqueue_round, dequeue_round}
use nolock.Mpmc.Ncq.Holds.{Holds}

module _ {n k : ℕ} {l : List ℕ} {q : Queue} (h : Holds n k l q) where
  cycle_at : (p : ℕ) → cycle p q.capacity ≡ some (p / n % 2 ^ 32)
  unfolding cycle
  cycle_at p = ground (arith, h.pos, h.full_size)

  -- Where the tail stands behind the last item, the index is placed in the free entry there.
  pub place_round :
      (i : ℕ)
      → q.tail ≡ q.head + length l
      → length l < n
      → enqueue_round q i
        ≡ some (
          some q.tail,
          record q {
            entries =
                set q.entries (q.tail % n) (NcqEntry.value (q.tail / n % 2 ^ 32) (i % 2 ^ 32));
          },
        )
  unfolding enqueue_round
  place_round i at room =
      let (e, found, before) = h.free (length l) (omega arith) room in
      let here : get_elem? q.entries (q.tail % q.capacity) ≡ some e =
        ap₂ (λ t m. get_elem? q.entries (t % m)) at h.full_size ∙ found in
      let c : (NcqEntry.cycle e + 1) % 2 ^ 32 ≡ q.tail / n % 2 ^ 32 =
        before ∙ ap (λ t. t / n % 2 ^ 32) (sym at) in
      ground (arith, cycle_at q.tail, here, c, h.full_size)

  -- Where it stands one short, the entry there is of the tail's own round, whether its item is the
  -- last one or is taken already.
  same_round :
      q.tail + 1 ≡ q.head + length l
      → (e : ℕ) × (get_elem? q.entries (q.tail % q.capacity) ≡ some e)
        × (NcqEntry.cycle e ≡ q.tail / n % 2 ^ 32)
  same_round at = elim (dec_lt 0 (length l)) [
    | yes some_item ↦
        let (x, last) = get_elem?_of_lt l (length l - 1) (omega arith) in
        let t : q.head + (length l - 1) ≡ q.tail = omega arith in
        (
          NcqEntry.value (q.tail / n % 2 ^ 32) x,
          ap₂ (λ t m. get_elem? q.entries (t % m)) (sym t) h.full_size
              ∙ h.items (length l - 1) x last
              ∙ ap (λ t. some (NcqEntry.value (t / n % 2 ^ 32) x)) t,
          (entry_fields (q.tail / n % 2 ^ 32) x (omega arith) (h.words (length l - 1) x last)).0,
        )
    | no empty ↦
        let (e, found, before) = h.free (n - 1) (omega arith) (omega (arith, h.pos)) in
        let t : q.head + (n - 1) ≡ q.tail + n = omega (arith, h.pos) in
        let (slot, round) = add-mod_self n q.tail h.pos in
        (
          e,
          ap (λ m. get_elem? q.entries (q.tail % m)) h.full_size
              ∙ ap (get_elem? q.entries) (sym slot)
              ∙ ap (λ t. get_elem? q.entries (t % n)) (sym t)
              ∙ found,
          earlier e (before ∙ ap (λ t. t / n % 2 ^ 32) t ∙ ap (λ r. r % 2 ^ 32) round),
        )
  ]
    where
      earlier :
          (e : ℕ)
          → (NcqEntry.cycle e + 1) % 2 ^ 32 ≡ (q.tail / n + 1) % 2 ^ 32
          → NcqEntry.cycle e ≡ q.tail / n % 2 ^ 32
      earlier e c = omega (arith, cycle-lt e)

  -- Then the round moves the tail on and places nothing.
  pub help_round :
      (i : ℕ)
      → q.tail + 1 ≡ q.head + length l
      → q.tail + 1 < 2 ^ 64
      → enqueue_round q i ≡ some (none, record q { tail = q.tail + 1 })
  unfolding enqueue_round
  help_round i at small =
      let (e, here, c) = same_round at in ground (arith, cycle_at q.tail, here, c)

  -- The entry at the head of a queue that is not empty, and of an empty one.
  pub take_round :
      {x : ℕ}
      → get_elem? l 0 ≡ some x
      → dequeue_round q ≡ some (some (some x), record q { head = q.head + 1 })
  unfolding dequeue_round
  take_round {x} first =
      let here : get_elem? q.entries (q.head % q.capacity)
          ≡ some (NcqEntry.value (q.head / n % 2 ^ 32) x) =
        ap₂ (λ t m. get_elem? q.entries (t % m)) (sym (add-zero q.head)) h.full_size
        ∙ h.items 0 x first
        ∙ ap (λ t. some (NcqEntry.value (t / n % 2 ^ 32) x)) (add-zero q.head) in
      ground (
        arith,
        cycle_at q.head,
        here,
        entry_fields (q.head / n % 2 ^ 32) x (omega arith) (h.words 0 x first),
        h.budget,
        lt_of_get_elem? l 0 x first,
      )

  pub empty_round : length l ≡ 0 → dequeue_round q ≡ some (some none, q)
  unfolding dequeue_round
  empty_round none_left =
      let (e, found, before) = h.free 0 (omega arith) h.pos in
      let here : get_elem? q.entries (q.head % q.capacity) ≡ some e =
        ap₂ (λ t m. get_elem? q.entries (t % m)) (sym (add-zero q.head)) h.full_size ∙ found in
      let c : (NcqEntry.cycle e + 1) % 2 ^ 32 ≡ q.head / n % 2 ^ 32 =
        before ∙ ap (λ t. t / n % 2 ^ 32) (add-zero q.head) in
      ground (arith, cycle_at q.head, here, c)
