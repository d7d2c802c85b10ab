-- ===== src/Mpmc/FinalScq.antt =====
-- src/queues/mpmc/unbounded/queue/scq.rs: the circular queue of src/queues/mpmc/queue/scq.rs, of which
-- it is a copy, with a tail that can be finalised: its bit 63 says that no index is taken any more.
-- An operation runs alone; `none` is a panic or the end of the fuel of a loop.
pub mod Laws
pub mod Drained
mod Tests
use Prim.Native.Nat.{bit_or, bit_and}
use nolock.Prelude.{
  ℕ, zero, suc, ◌-◌, ◌^◌, true, false, Option, none, some, ltb, add_usize, Result, ok, err,
}
use nolock.Mpmc.Scq.{Queue, enqueue_entry}

-- `1usize << (usize::BITS - 1)`
abbrev pub mask : ℕ
mask = 2 ^ 63

-- `usize::MAX - mask`
abbrev pub unmask : ℕ
unmask = 2 ^ 64 - 1 - 2 ^ 63

-- `tail.fetch_or(mask)`
unfoldable pub finalize : Queue → Queue
finalize q = record q { tail = bit_or mask q.tail }

unfoldable pub enqueue : ℕ → Queue → ℕ → Option (Result (Unit {0}) (Unit {0}) × Queue)
enqueue zero q i = none
enqueue (suc fuel) q i =
    let raw_tail = q.tail in
    let q1 = record q { tail = add_usize q.tail 1 } in
    elim (ltb 0 (bit_and raw_tail mask)) [
      | true ↦ some (err tt, q1)
      | false ↦ elim (enqueue_entry (suc fuel) q1 (bit_and raw_tail unmask) i) [
        | none ↦ none
        | some (placed, q') ↦ elim placed [ true ↦ some (ok tt, q') | false ↦ enqueue fuel q' i ]
      ]
    ]
