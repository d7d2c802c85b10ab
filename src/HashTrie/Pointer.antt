-- ===== src/HashTrie/Pointer.antt =====
-- src/hash_trie/mptr.rs: a pointer to an entry or to a level, told apart by its lowest bit.
use Prim.Native.Nat.{bit_or, bit_and}
use nolock.Prelude.{
  ℕ, ◌+◌, ==_iff, refl, ◌/◌, ◌*◌, ◌%◌, ◌^◌, ◌-◌, ◌<◌, ◌≡◌, Bool, true, if◌then◌else◌, ◌==◌, ap, ◌∙◌,
  arith, compare_exchange,
}
use nolock.Prelude.Bits.{or-one, and-even, and-one}

pub data PtrType : Type 0 where
  entry : ℕ → PtrType
  hash_level : ℕ → PtrType

unfoldable pub is_entry : ℕ → Bool
is_entry ptr = bit_and ptr 1 == 0

unfoldable pub mark_as_previous : ℕ → ℕ
mark_as_previous ptr = bit_or ptr 1

-- `usize::MAX - 1` is `2 ^ 64 - 2`.
unfoldable pub mark_as_entry : ℕ → ℕ
mark_as_entry ptr = bit_and ptr (2 ^ 64 - 2)

unfoldable pub to_actual_ptr : ℕ → ℕ
to_actual_ptr ptr = bit_and ptr (2 ^ 64 - 2)

-- `TargetPtr::load_ptr`, on the word of the atomic.
unfoldable pub load_ptr : ℕ → PtrType
load_ptr word =
    if is_entry word then entry (to_actual_ptr word) else hash_level (to_actual_ptr word)

-- `TargetPtr::new_hashlevel` and `store_hashlevel`: the word afterwards.
unfoldable pub store_hashlevel : ℕ → ℕ
store_hashlevel ptr = mark_as_previous ptr

-- Whether it took place, and the word afterwards.
unfoldable pub cas_hashlevel : ℕ → ℕ → ℕ → Bool × ℕ
cas_hashlevel word current new = compare_exchange word current (mark_as_previous new)

unfoldable pub cas_entry : ℕ → ℕ → ℕ → Bool × ℕ
cas_entry word current new = compare_exchange word current (mark_as_entry new)

-- An exchange that meets the word it expects stores the pointer it is given, with what it points to,
-- for an even pointer below 2 ^ 64.
pub load-cas :
    (word new : ℕ)
    → new % 2 ≡ 0
    → new < 2 ^ 64
    → ((cas_entry word word new).0 ≡ true)
      × (load_ptr (cas_entry word word new).1 ≡ entry new)
      × ((cas_hashlevel word word new).0 ≡ true)
      × (load_ptr (cas_hashlevel word word new).1 ≡ hash_level new)
unfolding cas_entry cas_hashlevel load_ptr is_entry to_actual_ptr mark_as_entry mark_as_previous
load-cas word new even small =
    let met : (word == word) ≡ true = (==_iff word word).1 refl in
    let w : bit_or new 1 ≡ new / 2 * 2 + 1 = or-one new in
    let e : bit_and new (2 ^ 64 - 2) ≡ new = and-even new small ∙ omega arith in
    let e_low : bit_and (bit_and new (2 ^ 64 - 2)) 1 ≡ 0 =
      ap (λ p. bit_and p 1) e ∙ and-one new ∙ even in
    let e_clean : bit_and (bit_and new (2 ^ 64 - 2)) (2 ^ 64 - 2) ≡ new =
      ap (λ p. bit_and p (2 ^ 64 - 2)) e ∙ e in
    let l_low : bit_and (bit_or new 1) 1 ≡ 1 = and-one (bit_or new 1) ∙ omega (arith, w) in
    let l_clean : bit_and (bit_or new 1) (2 ^ 64 - 2) ≡ new =
      and-even (bit_or new 1) (omega (arith, w)) ∙ omega (arith, w) in
    (rw met refl, rw (met, e_low, e_clean) refl, rw met refl, rw (met, l_low, l_clean) refl)
