-- ===== src/Lrmalloc/Anchor.antt =====
-- src/allocator/lrmalloc/descriptor/anchor.rs and anchor_state.rs: the anchor of a superblock, packed
-- into a u64 of a state of 2 bits and two numbers of 31. `none` is the panic on a corrupted state.
use Prim.Native.Nat.{bit_or, bit_and}
use nolock.Prelude.{
  ℕ, zero, suc, ◌+◌, ◌-◌, ◌*◌, ◌%◌, ◌^◌, ◌<◌, ◌≡◌, refl, ap, ◌∙◌, Option, none, some, ◌>>=◌, arith,
  Bool, compare_exchange,
}
use nolock.Prelude.Bits.{shl, shr, or-eq-add, and-eq-mod}

pub data AnchorState : Type 0 where
  empty : AnchorState
  partial : AnchorState
  full : AnchorState

pub record Anchor : Type 0 where
  pub state : AnchorState
  pub avail : ℕ
  pub count : ℕ

-- `From<u64> for AnchorState`
unfoldable pub state_of : ℕ → Option AnchorState
state_of zero = some empty
state_of (suc zero) = some partial
state_of (suc (suc zero)) = some full
state_of (suc (suc (suc raw))) = none

-- `From<AnchorState> for u64`
unfoldable pub state_bits : AnchorState → ℕ
state_bits empty = 0
state_bits partial = 1
state_bits full = 2

unfoldable pub new : ℕ → Anchor
new max_count = record { state = full; avail = max_count; count = 0 }

-- `From<u64> for Anchor`; `!(u64::MAX << 31)` is `2 ^ 31 - 1`.
unfoldable pub from_u64 : ℕ → Option Anchor
from_u64 raw = do
  state ← state_of (shr raw 62)
  some (record {
    state = state;
    avail = shr (bit_and raw (2 ^ 62 - 1)) 31 % 2 ^ 32;
    count = bit_and raw (2 ^ 31 - 1) % 2 ^ 32;
  })

-- `From<Anchor> for u64`
unfoldable pub to_u64 : Anchor → ℕ
to_u64 a = bit_or (bit_or (shl (state_bits a.state) 62) (shl a.avail 31)) a.count

-- `AtomicAnchor::compare_exchange`, of which the callers read whether it took place.
unfoldable pub update : ℕ → Anchor → Anchor → Bool × ℕ
update cell current new_anchor = compare_exchange cell (to_u64 current) (to_u64 new_anchor)

word_of :
    (s avail count : ℕ)
    → s < 3
    → avail < 2 ^ 31
    → count < 2 ^ 31
    → bit_or (bit_or (shl s 62) (shl avail 31)) count ≡ (s * 2 ^ 31 + avail) * 2 ^ 31 + count
word_of s avail count hs ha hc =
    ap (λ m. bit_or (bit_or m (shl avail 31)) count) (omega arith)
    ∙ ap (λ m. bit_or (bit_or (s * 2 ^ 62) m) count) (omega arith)
    ∙ ap (λ m. bit_or m count) (or-eq-add 62 s (avail * 2 ^ 31) (omega arith))
    ∙ ap (λ m. bit_or m count) (omega arith)
    ∙ or-eq-add 31 (s * 2 ^ 31 + avail) count hc

state_back : (s : AnchorState) → (state_of (state_bits s) ≡ some s) × (state_bits s < 3)
unfolding state_of state_bits
state_back empty = (refl, omega arith)
state_back partial = (refl, omega arith)
state_back full = (refl, omega arith)

-- An anchor whose numbers fit 31 bits is read back from the word that it is packed into.
pub anchor_round_trip :
    (a : Anchor) → a.avail < 2 ^ 31 → a.count < 2 ^ 31 → from_u64 (to_u64 a) ≡ some a
unfolding from_u64 to_u64
anchor_round_trip a ha hc =
    let (back, small) = state_back a.state in
    let w = word_of (state_bits a.state) a.avail a.count small ha hc in
    let e0 : shr (to_u64 a) 62 ≡ state_bits a.state = omega (arith, w) in
    let e1 : shr (bit_and (to_u64 a) (2 ^ 62 - 1)) 31 % 2 ^ 32 ≡ a.avail =
      ap (λ m. shr m 31 % 2 ^ 32) (and-eq-mod 62 (to_u64 a)) ∙ omega (arith, w) in
    let e2 : bit_and (to_u64 a) (2 ^ 31 - 1) % 2 ^ 32 ≡ a.count =
      ap (λ m. m % 2 ^ 32) (and-eq-mod 31 (to_u64 a)) ∙ omega (arith, w) in
    rw (e0, back, e1, e2) refl
