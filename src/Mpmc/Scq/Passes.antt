-- ===== src/Mpmc/Scq/Passes.antt =====
-- What one pass of each inner loop of src/queues/mpmc/queue/scq.rs does.
use nolock.Prelude.{
  ℕ, suc, ◌+◌, ◌-◌, ◌*◌, ◌/◌, ◌%◌, ◌^◌, ◌<◌, ◌≤◌, ◌≡◌, sym, ap, ap₂, ◌∙◌, true, none, some, List,
  length, get_elem?, set, arith, subst,
}
use native.Mathlib.Nat.{add-zero, div-lt_iff_lt-mul}
use nolock.Mpmc.ScqEntry
use nolock.Mpmc.ScqEntry.{entry_data_fields}
use nolock.Mpmc.Scq.{
  Queue, returned, left, cycle, catchup, raise, enqueue_pass, missed, dequeue_pass,
}
use nolock.Mpmc.Scq.Holds.{Holds}

module _ {n k : ℕ} {l : List ℕ} {q : Queue} (h : Holds n k l q) where
  -- The round of a position in reach fits the field of a cycle.
  pub round-lt : (p : ℕ) → p ≤ q.head + length l + k → p / (n * 2) < 2 ^ 31
  round-lt p le =
      (div-lt_iff_lt-mul {k = n * 2} {x = p} {y = 2 ^ 31} (omega (arith, h.pos))).1
        (omega (arith, h.budget))

  pub cycle_at : (p : ℕ) → p / (n * 2) < 2 ^ 31 → cycle p q.size ≡ some (p / (n * 2))
  unfolding cycle
  cycle_at p lt = ground (arith, h.pos, h.for_size)

  -- Where the tail stands behind the last item, the index is placed in the free entry there.
  pub place_pass :
      (i : ℕ)
      → q.tail ≡ q.head + length l
      → length l < n
      → i < 2 ^ 32
      → enqueue_pass (record q { tail = q.tail + 1 }) q.tail i
        ≡ some (
          returned tt,
          record q {
            entries = set q.entries (q.tail % (n * 2)) (ScqEntry.new true (q.tail / (n * 2)) i);
            tail = q.tail + 1;
            threshold = n * 3 - 1;
          },
        )
  unfolding enqueue_pass raise
  place_pass i at room small =
      let (c, found, before) = h.free (length l) (omega arith) (omega arith) in
      let here : get_elem? q.entries (q.tail % (q.size * 2))
          ≡ some (ScqEntry.new true c q.invalid_index) =
        ap₂ (λ t m. get_elem? q.entries (t % (m * 2))) at h.for_size ∙ found in
      let earlier : c < q.tail / (n * 2) = subst (λ t. c < t / (n * 2)) (sym at) before in
      let lt = round-lt q.tail (omega arith) in
      let fields = entry_data_fields true c q.invalid_index (omega (arith, lt)) h.invalid in
      ground (arith, cycle_at q.tail lt, here, earlier, fields, h.for_size, h.small, h.pos)

  -- Where it stands one short of the head, the entry there was given up by a dequeue.
  pub skip_pass :
      (i : ℕ)
      → q.head ≡ q.tail + 1
      → get_elem? q.entries (q.tail % (n * 2))
        ≡ some (ScqEntry.new true (q.tail / (n * 2)) q.invalid_index)
      → enqueue_pass (record q { tail = q.tail + 1 }) q.tail i
        ≡ some (left, record q { tail = q.tail + 1 })
  unfolding enqueue_pass
  skip_pass i at given =
      let here : get_elem? q.entries (q.tail % (q.size * 2))
          ≡ some (ScqEntry.new true (q.tail / (n * 2)) q.invalid_index) =
        ap (λ m. get_elem? q.entries (q.tail % (m * 2))) h.for_size ∙ given in
      let lt = round-lt q.tail (omega arith) in
      let fields =
        entry_data_fields true (q.tail / (n * 2)) q.invalid_index (omega (arith, lt)) h.invalid in
      ground (arith, cycle_at q.tail lt, here, fields)

  -- The item at the head is taken, and its entry marked empty.
  pub take_pass :
      (fuel t : ℕ) {x : ℕ}
      → get_elem? l 0 ≡ some x
      → dequeue_pass fuel (record q { head = q.head + 1; tail = t }) q.head
        ≡ some (
          returned (some x),
          record q {
            entries =
                set q.entries
                  (q.head % (n * 2))
                  (ScqEntry.new true (q.head / (n * 2)) q.invalid_index);
            head = q.head + 1;
            tail = t;
          },
        )
  unfolding dequeue_pass
  take_pass fuel t {x} first =
      let here : get_elem? q.entries (q.head % (q.size * 2))
          ≡ some (ScqEntry.new true (q.head / (n * 2)) x) =
        ap₂ (λ t m. get_elem? q.entries (t % (m * 2))) (sym (add-zero q.head)) h.for_size
        ∙ h.items 0 x first
        ∙ ap (λ t. some (ScqEntry.new true (t / (n * 2)) x)) (add-zero q.head) in
      let lt = round-lt q.head (omega arith) in
      let fields = entry_data_fields true (q.head / (n * 2)) x lt (h.words 0 x first) in
      ground (arith, cycle_at q.head lt, here, fields, h.for_size)

  -- With no item, the entry at the head is given up, and the tail set to the old head.
  pub miss_pass :
      (fuel : ℕ)
      → length l ≡ 0
      → dequeue_pass (suc fuel) (record q { head = q.head + 1 }) q.head
        ≡ some (
          returned none,
          record q {
            entries =
                set q.entries
                  (q.head % (n * 2))
                  (ScqEntry.new true (q.head / (n * 2)) q.invalid_index);
            head = q.head + 1;
            tail = q.head;
            threshold = (q.threshold + (2 ^ 64 - 1)) % 2 ^ 64;
          },
        )
  unfolding dequeue_pass missed catchup
  miss_pass fuel none_left =
      let (c, found, before) = h.free 0 (omega arith) (omega (arith, h.pos)) in
      let here : get_elem? q.entries (q.head % (q.size * 2))
          ≡ some (ScqEntry.new true c q.invalid_index) =
        ap₂ (λ t m. get_elem? q.entries (t % (m * 2))) (sym (add-zero q.head)) h.for_size ∙ found in
      let earlier : c < q.head / (n * 2) = subst (λ t. c < t / (n * 2)) (add-zero q.head) before in
      let lt = round-lt q.head (omega arith) in
      let fields = entry_data_fields true c q.invalid_index (omega (arith, lt)) h.invalid in
      let reached : q.tail ≤ q.head + 1 + 1 = omega (arith, h.written) in
      ground (arith, cycle_at q.head lt, here, fields, earlier, h.for_size, reached)
