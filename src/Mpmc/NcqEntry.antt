-- ===== src/Mpmc/NcqEntry.antt =====
-- `QueueEntry` of src/queues/mpmc/queue/ncq.rs: a u64 with a cycle in its upper half and an index in
-- its lower half.
use Prim.Native.Nat.{bit_or}
use nolock.Prelude.{ℕ, ◌+◌, ◌*◌, ◌%◌, ◌^◌, ◌<◌, ◌≡◌, ap, ◌∙◌, arith}
use nolock.Prelude.Bits.{shl, shr, or-eq-add}

-- The value that `QueueEntry::cas` writes.
unfoldable pub value : ℕ → ℕ → ℕ
value cycle index = bit_or (shl cycle 32) index

unfoldable pub cycle : ℕ → ℕ
cycle entry = shr entry 32 % 2 ^ 32

unfoldable pub index : ℕ → ℕ
index entry = entry % 2 ^ 32

value-eq-add : (c i : ℕ) → c < 2 ^ 32 → i < 2 ^ 32 → value c i ≡ c * 2 ^ 32 + i
unfolding value
value-eq-add c i hc hi = ap (λ x. bit_or x i) (omega arith) ∙ or-eq-add 32 c i hi

-- A cycle and an index of 32 bits each are read back from the word that they are packed into.
pub entry_fields :
    (c i : ℕ) → c < 2 ^ 32 → i < 2 ^ 32 → (cycle (value c i) ≡ c) × (index (value c i) ≡ i)
unfolding cycle index
entry_fields c i hc hi = omega (arith, value-eq-add c i hc hi)

pub cycle-lt : (e : ℕ) → cycle e < 2 ^ 32
unfolding cycle
cycle-lt e = omega arith
