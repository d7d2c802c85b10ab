-- ===== src/Mpmc/FinalScq/Laws.antt =====
-- What finalising adds to the circular queue: nothing, until it is done.
use Prim.Native.Nat.{bit_and}
use nolock.Prelude.{
  ℕ, zero, suc, ◌+◌, ◌^◌, ◌<◌, ◌≤◌, ◌≡◌, refl, ap, ◌∙◌, Bool, true, false, Option, some, add_usize,
  ok, err, arith, ◌>>=◌, Option-cases, inl, inr,
}
use nolock.Prelude.Bits.{and-bit, and-eq-mod, or-eq-add}
use nolock.Mpmc.Scq
use nolock.Mpmc.Scq.{
  Queue, Pass, returned, left, repeated, enqueue_pass, enqueue_entry, raise, cycle,
}
use nolock.Mpmc.FinalScq.{mask, unmask, finalize, enqueue}

enqueue_pass-tail :
    (q : Queue) (tail i : ℕ) (p : Pass (Unit {0})) (q' : Queue)
    → enqueue_pass q tail i ≡ some (p, q')
    → q'.tail ≡ q.tail
unfolding enqueue_pass raise
enqueue_pass-tail q tail i p q' e = ground arith

enqueue_entry-tail :
    (fuel : ℕ) (q : Queue) (tail i : ℕ) (b : Bool) (q' : Queue)
    → enqueue_entry fuel q tail i ≡ some (b, q')
    → q'.tail ≡ q.tail
unfolding enqueue_entry
enqueue_entry-tail zero q tail i b q' e = cc
enqueue_entry-tail (suc fuel) q tail i b q' e = elim (Option-cases (enqueue_pass q tail i)) [
  | inl n ↦ cc (rw (enqueue_entry, n) at e)
  | inr ((p, q1), f) ↦
      go p q1 f (λ r g. enqueue_entry-tail fuel q1 tail i b r g) (rw (enqueue_entry, f) at e)
]
  where
    go :
        (p : Pass (Unit {0})) (q1 : Queue)
        → enqueue_pass q tail i ≡ some (p, q1)
        → ((r : Queue) → enqueue_entry fuel q1 tail i ≡ some (b, r) → r.tail ≡ q1.tail)
        → ◌≡◌ {A = Option (Bool × Queue)}
            (elim p [
              | returned u ↦ some (true, q1)
              | left ↦ some (false, q1)
              | repeated ↦ enqueue_entry fuel q1 tail i
            ])
            (some (b, q'))
        → q'.tail ≡ q.tail
    go (returned u) q1 f again g = cc (g, enqueue_pass-tail q tail i (returned u) q1 f)
    go left q1 f again g = cc (g, enqueue_pass-tail q tail i left q1 f)
    go repeated q1 f again g = again q' g ∙ enqueue_pass-tail q tail i repeated q1 f

-- Until the queue is finalised, and while the counter stays below its bit 63, an index is enqueued as in the
-- queue that cannot be finalised.
pub enqueue-enqueue :
    (fuel : ℕ) (q : Queue) (i : ℕ)
    → q.tail + fuel < 2 ^ 63
    → enqueue fuel q i ≡ (Scq.enqueue fuel q i >>= λ q'. some (ok tt, q'))
unfolding enqueue Scq.enqueue
enqueue-enqueue zero q i small = refl
enqueue-enqueue (suc fuel) q i small =
    let open_bit : bit_and q.tail mask ≡ 0 = and-bit 63 q.tail ∙ omega arith in
    let same : bit_and q.tail unmask ≡ q.tail = and-eq-mod 63 q.tail ∙ omega arith in
    let q0 : Queue = record q { tail = add_usize q.tail 1 } in
    elim (Option-cases (enqueue_entry (suc fuel) q0 q.tail i)) [
      | inl n ↦ rw (enqueue, Scq.enqueue, open_bit, same, n) refl
      | inr ((true, q1), f) ↦ rw (enqueue, Scq.enqueue, open_bit, same, f) refl
      | inr ((false, q1), f) ↦
          rw (enqueue, Scq.enqueue, open_bit, same, f)
            (enqueue-enqueue fuel q1 i
              (omega (arith, enqueue_entry-tail (suc fuel) q0 q.tail i false q1 f)))
    ]

-- Where bit 63 of the counter is set, an enqueue fails.
pub enqueue_past :
    (fuel : ℕ) (q : Queue) (i : ℕ)
    → 2 ^ 63 ≤ q.tail
    → q.tail < 2 ^ 64
    → enqueue (suc fuel) q i ≡ some (err tt, record q { tail = add_usize q.tail 1 })
unfolding enqueue
enqueue_past fuel q i top small =
    let closed_bit : bit_and q.tail mask ≡ 2 ^ 63 = and-bit 63 q.tail ∙ omega arith in
    rw (enqueue, closed_bit) refl

finalize-tail : (q : Queue) → q.tail < 2 ^ 63 → (finalize q).tail ≡ 2 ^ 63 + q.tail
unfolding finalize
finalize-tail q small = or-eq-add 63 1 q.tail small

pub finalize_record :
    (q : Queue) → q.tail < 2 ^ 63 → finalize q ≡ record q { tail = 2 ^ 63 + q.tail }
unfolding finalize
finalize_record q small = ap (λ t. record q { tail = t }) (or-eq-add 63 1 q.tail small)

-- While the counter of the tail stays below its bit 63, which `fuel` rounds and `k` failed calls do
-- not change, an index is enqueued as in the circular queue that cannot be finalised; and after
-- `finalize` and `k` calls that failed the next one fails too, and takes nothing but the counter on.
pub finalize_lem :
    (fuel k i : ℕ) (q : Queue)
    → q.tail + suc fuel < 2 ^ 63
    → q.tail + suc k < 2 ^ 63
    → (enqueue (suc fuel) q i ≡ (Scq.enqueue (suc fuel) q i >>= λ q'. some (ok tt, q')))
      × (enqueue (suc fuel) (record (finalize q) { tail = (finalize q).tail + k }) i
          ≡ some (err tt, record (finalize q) { tail = (finalize q).tail + suc k }))
finalize_lem fuel k i q small few =
    let at = finalize-tail q (omega arith) in
    let next : add_usize ((finalize q).tail + k) 1 ≡ (finalize q).tail + suc k =
      omega (arith, at) in
    (
      enqueue-enqueue (suc fuel) q i small,
      enqueue_past fuel (record (finalize q) { tail = (finalize q).tail + k }) i (omega (arith, at))
            (omega (arith, at))
          ∙ ap (λ t. some (err tt, record (finalize q) { tail = t })) next,
    )
