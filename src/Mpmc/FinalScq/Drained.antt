-- ===== src/Mpmc/FinalScq/Drained.antt =====
-- `dequeue` of src/queues/mpmc/unbounded/queue/scq.rs on a queue that is finalised and has no index left.
use nolock.Prelude.{
  ℕ, zero, suc, ◌+◌, ◌-◌, ◌*◌, ◌/◌, ◌%◌, ◌^◌, ◌<◌, ◌≤◌, ◌≡◌, refl, sym, ap₂, subst, ◌∙◌, true,
  Option, none, some, [], get_elem?, set, arith, ◌⊎◌, inl, inr,
}
use native.Mathlib.Nat.{add-zero}
use nolock.Mpmc.ScqEntry
use nolock.Mpmc.ScqEntry.{entry_data_fields}
use nolock.Mpmc.Scq.{
  Queue, Pass, returned, left, dequeue_pass, missed, dequeue_entry, dequeue_loop, dequeue,
}
use nolock.Mpmc.Scq.Holds.{Holds}
use nolock.Mpmc.Scq.Passes.{round-lt, cycle_at}
use nolock.Mpmc.Scq.Keeps.{miss-Holds, less-Holds}

-- What a round that finds nothing leaves, but for the tail.
abbrev pub missing : ℕ → Queue → Queue
missing n q = record q {
  entries = set q.entries (q.head % (n * 2)) (ScqEntry.new true (q.head / (n * 2)) q.invalid_index);
  head = q.head + 1;
  tail = q.head;
  threshold = (q.threshold + (2 ^ 64 - 1)) % 2 ^ 64;
}

zero_or_suc : (a : ℕ) → (a ≡ 0) ⊎ ((b : ℕ) × (a ≡ suc b))
zero_or_suc zero = inl refl
zero_or_suc (suc b) = inr (b, refl)

module _ {n t : ℕ} (final : 2 ^ 63 ≤ t) (size : n ≤ 2 ^ 30) where
  -- The tail is far away, so a round gives up the entry at the head, and is the last one only if the
  -- threshold was not above 0.
  drained_pass :
      {k : ℕ} {q : Queue} (fuel : ℕ) (p : Pass (Option ℕ))
      → Holds n (suc k) [] q
      → ((q.threshold ≡ 0) × (p ≡ returned none))
        ⊎ ((0 < q.threshold) × (q.threshold < 2 ^ 63) × (p ≡ left))
      → dequeue_pass (suc fuel) (record q { head = q.head + 1; tail = t }) q.head
        ≡ some (p, record (missing n q) { tail = t })
  unfolding dequeue_pass missed
  drained_pass {q} fuel p h which =
      let (c, found, before) = h.free 0 (omega arith) (omega (arith, h.pos)) in
      let here : get_elem? q.entries (q.head % (q.size * 2))
          ≡ some (ScqEntry.new true c q.invalid_index) =
        ap₂ (λ t m. get_elem? q.entries (t % (m * 2))) (sym (add-zero q.head)) h.for_size ∙ found in
      let earlier : c < q.head / (n * 2) = subst (λ t. c < t / (n * 2)) (add-zero q.head) before in
      let lt = round-lt h q.head (omega arith) in
      let fields = entry_data_fields true c q.invalid_index (omega (arith, lt)) h.invalid in
      let far : q.head + 1 + 1 < t = omega (arith, h.budget) in
      ground (arith, cycle_at h q.head lt, here, fields, earlier, h.for_size, far)

  -- As many rounds as the threshold says, and one more, find nothing.
  drained_loop :
      (k fuel : ℕ) {j : ℕ} {q : Queue}
      → Holds n j [] q
      → q.threshold < fuel
      → q.threshold < 2 ^ 63
      → q.threshold + k < j
      → (q' : Queue) × (dequeue_loop fuel (record q { tail = t })
          ≡ some (none, record q' { tail = t }))
        × Holds n k [] q'
  unfolding dequeue_loop dequeue_entry
  drained_loop k zero h rounds lt enough = absurd (omega arith)
  drained_loop k (suc fuel) {j} {q} h rounds lt enough =
      let h1 : Holds n (suc (j - 1)) [] q = less-Holds (omega arith) h in
      elim (zero_or_suc q.threshold) [
        | inl at ↦ (
          missing n q,
          ground (arith, drained_pass fuel (returned none) h1 (inl (at, refl)), h.budget),
          less-Holds (omega arith) (miss-Holds h1 lt),
        )
        | inr (th, at) ↦
            let (q', e, h') =
              drained_loop k fuel (miss-Holds h1 lt) (omega arith) (omega arith) (omega arith) in
            (
              q',
              ground (arith, drained_pass fuel left h1 (inr (omega arith, lt, refl)), h.budget, e),
              h',
            )
      ]

  -- Such a queue gives nothing, whatever its threshold, in as many rounds as three for each index.
  pub dequeue-drained :
      (k fuel : ℕ) {j : ℕ} {q : Queue}
      → Holds n j [] q
      → n * 3 ≤ fuel
      → n * 3 + k < j
      → (q' : Queue) × (dequeue fuel (record q { tail = t }) ≡ some (none, record q' { tail = t }))
        × Holds n k [] q'
  unfolding dequeue
  dequeue-drained k fuel {q} h rounds enough = elim h.ceiling [
    | inl lt ↦
        let (q', e, h') = drained_loop k fuel h (omega arith) (omega arith) (omega arith) in
        (q', ground (arith, e), h')
    | inr negative ↦ (q, ground arith, less-Holds (omega arith) h)
  ]
