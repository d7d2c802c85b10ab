-- ===== src/Mpmc/ScqEntry.antt =====
-- `QueueEntryData` of src/queues/mpmc/queue/scq/entry_data.rs: a u64 of a safe bit, a cycle of 31
-- bits and an index of 32.
use Prim.Native.Nat.{bit_or, bit_and}
use nolock.Prelude.{
  ℕ, ◌+◌, ◌-◌, ◌*◌, ◌%◌, ◌^◌, ◌<◌, ◌≡◌, ap, ◌∙◌, Bool, true, false, if◌then◌else◌, ◌==◌, arith,
}
use nolock.Prelude.Bits.{shl, shr, or-eq-add, and-eq-mod}

abbrev safe_bit : Bool → ℕ
safe_bit is_safe = if is_safe then 2 ^ 63 else 0

unfoldable pub new : Bool → ℕ → ℕ → ℕ
new is_safe cycle index =
    bit_or (bit_or (safe_bit is_safe) (shl (bit_and cycle (2 ^ 31 - 1)) 32)) index

unfoldable pub is_safe : ℕ → Bool
is_safe entry = shr entry 63 == 1

unfoldable pub cycle : ℕ → ℕ
cycle entry = bit_and (shr entry 32) (2 ^ 31 - 1) % 2 ^ 32

unfoldable pub index : ℕ → ℕ
index entry = bit_and entry (2 ^ 32 - 1) % 2 ^ 32

new-eq-add :
    (b : Bool) (c i : ℕ)
    → c < 2 ^ 31
    → i < 2 ^ 32
    → new b c i ≡ (if b then 2 ^ 31 + c else c) * 2 ^ 32 + i
unfolding new
new-eq-add b c i hc hi =
    ap (λ m. bit_or (bit_or (safe_bit b) (shl m 32)) i) (and-eq-mod 31 c)
    ∙ ap (λ m. bit_or (bit_or (safe_bit b) m) i) (omega arith)
    ∙ ap (λ m. bit_or m i) (upper b)
    ∙ or-eq-add 32 (if b then 2 ^ 31 + c else c) i hi
  where
    upper : (b : Bool) → bit_or (safe_bit b) (c * 2 ^ 32) ≡ (if b then 2 ^ 31 + c else c) * 2 ^ 32
    upper true = or-eq-add 63 1 (c * 2 ^ 32) (omega arith) ∙ omega arith
    upper false = or-eq-add 63 0 (c * 2 ^ 32) (omega arith) ∙ omega arith

-- The three fields are read back from the word that they are packed into.
pub entry_data_fields :
    (b : Bool) (c i : ℕ)
    → c < 2 ^ 31
    → i < 2 ^ 32
    → (is_safe (new b c i) ≡ b) × (cycle (new b c i) ≡ c) × (index (new b c i) ≡ i)
unfolding is_safe cycle index
entry_data_fields true c i hc hi =
    let e = new-eq-add true c i hc hi in
    (
      rw e (ground arith),
      ap (λ m. m % 2 ^ 32) (and-eq-mod 31 _) ∙ rw e (omega arith),
      ap (λ m. m % 2 ^ 32) (and-eq-mod 32 _) ∙ rw e (omega arith),
    )
entry_data_fields false c i hc hi =
    let e = new-eq-add false c i hc hi in
    (
      rw e (ground arith),
      ap (λ m. m % 2 ^ 32) (and-eq-mod 31 _) ∙ rw e (omega arith),
      ap (λ m. m % 2 ^ 32) (and-eq-mod 32 _) ∙ rw e (omega arith),
    )
