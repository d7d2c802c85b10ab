-- ===== src/Lrmalloc/Tests.antt =====
-- Runs of the parts of src/allocator/lrmalloc at concrete inputs.
use nolock.Prelude.{
  ℕ, ◌+◌, ◌-◌, ◌*◌, ◌<◌, ◌≤◌, ◌≡◌, ◌≢◌, ◌↔◌, refl, true, false, none, some, List, [], ◌∷◌, arith,
  ok, suc, if◌then◌else◌, ◌==◌,
}
use nolock.Lrmalloc.Partial
use nolock.Lrmalloc.Anchor
use nolock.Lrmalloc.Anchor.{Anchor, partial, anchor_round_trip}
use nolock.Lrmalloc.SizeClasses.{
  get_size_class_index, get_block_size, first_larger, least_size_class, large_size_iff,
}
use nolock.Lrmalloc.Stack.{Stack}
use nolock.Lrmalloc.Cache
use nolock.Lrmalloc.Cache.{
  Caches, change, new-Caches, add_block_refines, flush_refines, try_alloc_refines,
}
use nolock.Lrmalloc.Descriptor
use nolock.Lrmalloc.Descriptor.{Descriptor, block_start_lem, contains-lt}
use nolock.Lrmalloc.Slots.{
  insert, get, remove, count, load_registered, get_descriptor, get_descriptor_lem,
}

abbrev half_used : Anchor
half_used = record { state = partial; avail = 5; count = 16 }

anchor_round_trip_example : Anchor.from_u64 (Anchor.to_u64 half_used) ≡ some half_used
anchor_round_trip_example = anchor_round_trip half_used (omega arith) (omega arith)

class_of_1024 : get_size_class_index 1024 ≡ some 1
unfolding get_size_class_index first_larger
class_of_1024 = refl

least_size_class_example :
    ((b : ℕ) × (get_block_size 1 ≡ some b) × (1024 < b))
    × ((j c : ℕ) → j < 1 → get_block_size j ≡ some c → c ≤ 1024)
least_size_class_example = least_size_class 1024 1 class_of_1024

large_size_iff_example : (get_size_class_index 20000 ≡ none) ↔ (16384 ≤ 20000)
large_size_iff_example = large_size_iff 20000

-- A cache with one block of the class 3.
one_block :
    (stacks : List Stack) × (Cache.add_block Cache.new 3 4096 ≡ some (ok tt, stacks))
    × Caches (change (λ c. []) 3 (4096 ∷ [])) stacks
one_block = add_block_refines 3 new-Caches (omega arith) 4096

add_block_refines_example :
    (stacks : List Stack) × (Cache.add_block one_block.0 3 8192 ≡ some (ok tt, stacks))
    × Caches (change (change (λ c. []) 3 (4096 ∷ [])) 3 (8192 ∷ 4096 ∷ [])) stacks
add_block_refines_example = add_block_refines 3 one_block.2 (omega arith) 8192

try_alloc_refines_example :
    (stacks : List Stack) × (Cache.try_alloc one_block.0 3 ≡ some (some 4096, stacks))
    × Caches (change (change (λ c. []) 3 (4096 ∷ [])) 3 []) stacks
try_alloc_refines_example = try_alloc_refines 3 one_block.2 (omega arith)

flush_refines_example :
    (stacks : List Stack) × (Cache.flush one_block.0 3 ≡ some (4096 ∷ [], stacks))
    × Caches (change (change (λ c. []) 3 (4096 ∷ [])) 3 []) stacks
flush_refines_example = flush_refines 3 one_block.2 (omega arith)

block_start_lem_example :
    (Descriptor.contains (Descriptor.new 1024 32 (some 0) 4096) (4096 + 1024 * 31) ≡ true)
    × (Descriptor.calc_index (Descriptor.new 1024 32 (some 0) 4096) (4096 + 1024 * 31) ≡ some 31)
block_start_lem_example =
    block_start_lem 1024 32 4096 31 (some 0) (omega arith) (omega arith) (omega arith) (omega arith)

-- The last byte of the last block is not in the range of the descriptor.
last_byte :
    Descriptor.contains (Descriptor.new 1024 32 (some 0) 4096) (4096 + 1024 * 32 - 1) ≡ false
unfolding Descriptor.contains Descriptor.new
last_byte = refl

inside : Descriptor.contains (Descriptor.new 1024 32 (some 0) 4096) 5000 ≡ true
unfolding Descriptor.contains Descriptor.new
inside = refl

-- Two superblocks, behind the addresses 1 and 2.
abbrev two_blocks : ℕ → Descriptor
two_blocks d = Descriptor.new 1024 32 (some 0) (d * 65536)

only_second :
    (e : ℕ)
    → e ≢ 0
    → e ≢ 2
    → 0 < count e (1 ∷ 0 ∷ [])
    → Descriptor.contains (two_blocks e) 131072 ≡ false
unfolding count Descriptor.contains Descriptor.new
only_second e n0 n2 here = ground arith

in_second : Descriptor.contains (two_blocks 2) 131072 ≡ true
unfolding Descriptor.contains Descriptor.new
in_second = refl

load_registered_example :
    (get two_blocks (insert 2 (1 ∷ 0 ∷ [])) 131072 ≡ some 2)
    × (get two_blocks (remove 2 (insert 2 (1 ∷ 0 ∷ []))) 131072 ≡ none)
load_registered_example =
    load_registered two_blocks (1 ∷ 0 ∷ []) 131072 2 (λ e. omega arith) in_second only_second

get_descriptor_lem_example : count 7 (0 ∷ 7 ∷ 7 ∷ []) ≡ (elim (get_descriptor (0 ∷ 7 ∷ 7 ∷ [])).0 [
  | none ↦ 0
  | some d ↦
      if d == 7
      then suc (count 7 (get_descriptor (0 ∷ 7 ∷ 7 ∷ [])).1)
      else count 7 (get_descriptor (0 ∷ 7 ∷ 7 ∷ [])).1
])
get_descriptor_lem_example = get_descriptor_lem (0 ∷ 7 ∷ 7 ∷ []) 7 (λ e. omega arith)

contains-lt_example : (4096 ≤ 5000) × (5000 < 4096 + 1024 * 32)
contains-lt_example = contains-lt 1024 32 4096 5000 (some 0) (omega arith) (omega arith) inside

push_lem_example :
    count 7 (Partial.push 7 (5 ∷ 0 ∷ []))
    ≡ (if 7 == 7 then suc (count 7 (5 ∷ 0 ∷ [])) else count 7 (5 ∷ 0 ∷ []))
push_lem_example = Partial.push_lem 7 (5 ∷ 0 ∷ []) 7 (λ e. omega arith) (λ e. omega arith)

try_pop_lem_example : count 7 (0 ∷ 7 ∷ []) ≡ (elim (Partial.try_pop (0 ∷ 7 ∷ [])).0 [
  | none ↦ 0
  | some d ↦
      if d == 7
      then suc (count 7 (Partial.try_pop (0 ∷ 7 ∷ [])).1)
      else count 7 (Partial.try_pop (0 ∷ 7 ∷ [])).1
])
try_pop_lem_example = Partial.try_pop_lem (0 ∷ 7 ∷ []) 7 (λ e. omega arith)
