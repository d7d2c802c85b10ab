-- ===== src/ThreadData/Target.antt =====
-- src/thread_data/storage/trie/ptr/target.rs: what a pointer of the trie leads to, packed into a word.
use Prim.Native.Nat.{bit_or, bit_and}
use nolock.Prelude.{ℕ, ◌+◌, ◌-◌, ◌/◌, ◌*◌, ◌%◌, ◌^◌, ◌<◌, ◌≡◌, if◌then◌else◌, ltb, ◌∙◌, arith, refl}
use nolock.Prelude.Bits.{or-one, and-even, and-one}

pub data PtrTarget : Type 0 where
  entry : ℕ → PtrTarget
  level : ℕ → PtrTarget

abbrev entry_mask : ℕ
entry_mask = 1

abbrev clean_ptr_mask : ℕ
clean_ptr_mask = 2 ^ 64 - 2

-- `From<*mut ()> for PtrTarget`
unfoldable pub from_raw : ℕ → PtrTarget
from_raw raw_ptr =
    if ltb 0 (bit_and raw_ptr entry_mask)
    then entry (bit_and raw_ptr clean_ptr_mask)
    else level raw_ptr

-- `From<PtrTarget> for *mut ()`
unfoldable pub to_raw : PtrTarget → ℕ
to_raw (entry raw) = bit_or raw entry_mask
to_raw (level raw) = raw

abbrev pub address : PtrTarget → ℕ
address (entry raw) = raw
address (level raw) = raw

-- A target at an even address below 2 ^ 64 is read back from its word.
pub target_round_trip :
    (t : PtrTarget) → address t % 2 ≡ 0 → address t < 2 ^ 64 → from_raw (to_raw t) ≡ t
unfolding from_raw to_raw
target_round_trip (entry raw) even small =
    let w : bit_or raw entry_mask ≡ raw / 2 * 2 + 1 = or-one raw in
    let low : bit_and (bit_or raw entry_mask) entry_mask ≡ 1 =
      and-one (bit_or raw entry_mask) ∙ omega (arith, w) in
    let clean : bit_and (bit_or raw entry_mask) clean_ptr_mask ≡ raw =
      and-even (bit_or raw entry_mask) (omega (arith, w)) ∙ omega (arith, w) in
    rw (low, clean) refl
target_round_trip (level raw) even small =
    let low : bit_and raw entry_mask ≡ 0 = and-one raw ∙ even in rw low refl
