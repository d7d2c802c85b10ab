-- ===== src/Lrmalloc/Heap/Tests.antt =====
-- Runs of the heap and the allocator of src/allocator/lrmalloc at concrete inputs, with a system
-- allocator that never uses an address again and counts what is given back.
use nolock.Prelude.{
  ℕ, zero, suc, some-injective, ◌+◌, ◌*◌, ◌<◌, ◌≡◌, ◌≢◌, refl, sym, ap, true, Option, none, some,
  List, [], ◌∷◌, arith, get_elem?, ◌>>=◌,
}
use nolock.Lrmalloc.Allocator.{allocate, deallocate}
use nolock.Lrmalloc.Allocator.Laws.{allocate-new, deallocate-allocate, deallocate_unknown}
use nolock.Lrmalloc.Anchor
use nolock.Lrmalloc.Anchor.{Anchor, AnchorState}
use nolock.Lrmalloc.Cache
use nolock.Lrmalloc.Cache.{Caches, change, new-Caches, stack_size}
use nolock.Lrmalloc.Descriptor
use nolock.Lrmalloc.Descriptor.{Descriptor}
use nolock.Lrmalloc.Partial
use nolock.Lrmalloc.SizeClasses.{get_size_class_index, first_larger, get_block_size}
use nolock.Lrmalloc.Slots
use nolock.Lrmalloc.Slots.{count}
use nolock.Lrmalloc.Stack
use nolock.Lrmalloc.Stack.{Stack}
use nolock.Lrmalloc.Heap
use nolock.Lrmalloc.Heap.{System, Heap, load_descriptor, write}
use nolock.Lrmalloc.Heap.Chain.{done}
use nolock.Lrmalloc.Heap.Fill.{
  fill_cache, fill_cache_from_new, fill_cache_from_partial, add_blocks, claim, take_blocks,
}
use nolock.Lrmalloc.Heap.Blocks.{add_room, block_ptrs}
use nolock.Lrmalloc.Heap.FillLaws.{DescriptorFrom}
use nolock.Lrmalloc.Heap.Flush.{flush_cache, flush_blocks, link, gather, settle}
use nolock.Lrmalloc.Heap.FlushLaws.{Flushable}
use nolock.Lrmalloc.Heap.RoundTrip.{flush-fill}

-- The next address, and how often memory was given back.
abbrev bump : System (ℕ × ℕ)
bump = record {
  is_layout = λ size. true;
  descriptor_size = 80;
  alloc = λ s size. (s.0, (s.0 + size, s.1));
  dealloc = λ s ptr size. (s.0, suc s.1);
}

abbrev no_descriptor : Descriptor
no_descriptor = record {
  anchor = 0;
  super_block = 0;
  block_size = 0;
  max_count = 0;
  size_class = none;
  lower_bound = 0;
  upper_bound = 0;
}

abbrev start : Heap (ℕ × ℕ)
start = Heap.new (λ d. no_descriptor) (λ a. 0) (4096, 0)

class_of_100 : get_size_class_index 100 ≡ some 0
unfolding get_size_class_index first_larger
class_of_100 = refl

size_of_0 : get_block_size 0 ≡ some 1024
unfolding get_block_size
size_of_0 = refl

nothing_popped : Partial.try_pop [] ≡ (none, [])
unfolding Partial.try_pop
nothing_popped = refl

allocate-new_example :
    let desc = Descriptor.new 1024 stack_size (some 0) 4096 in
    (d : ℕ) × (stacks : List Stack) × (h : Heap (ℕ × ℕ)) × (allocate bump 1 100 Cache.new start
      ≡ some (4096 + 1024 * 31, stacks, h))
    × DescriptorFrom bump (0 ∷ []) (36864, 0) d
    × (100 < 1024)
    × (h.descriptors d ≡ desc)
    × (h.pagemap ≡ Slots.insert d (0 ∷ []))
    × Caches (change (λ c. []) 0 (block_ptrs desc 31)) stacks
unfolding Heap.new
allocate-new_example =
    allocate-new bump 0 100 0 1024 start new-Caches class_of_100 size_of_0 refl refl nothing_popped
      refl (λ e. absurd (omega (arith, e))) (λ e. absurd (omega (arith, e)))

-- A superblock at 4096, all of whose blocks are in use, with the descriptor 7.
abbrev superblock : Descriptor
superblock = Descriptor.new 1024 32 (some 0) 4096

abbrev in_use : Heap (ℕ × ℕ)
in_use = record start { pagemap = 7 ∷ []; descriptors = λ d. superblock }

loaded_5120 : load_descriptor in_use 5120 ≡ some 7
unfolding load_descriptor Slots.get Descriptor.contains Descriptor.new
loaded_5120 = refl

class_of_superblock : superblock.size_class ≡ some 0
unfolding Descriptor.new
class_of_superblock = refl

deallocate-allocate_example :
    (stacks1 : List Stack) × (stacks2 : List Stack) × (deallocate bump 5120 100 Cache.new in_use
      ≡ some (stacks1, in_use))
    × (allocate bump 1 100 stacks1 in_use ≡ some (5120, stacks2, in_use))
    × Caches (λ c. []) stacks2
deallocate-allocate_example =
    deallocate-allocate bump 1 5120 100 7 0 new-Caches (omega arith) loaded_5120 class_of_superblock
      (omega arith) class_of_100

none_registered : (d : ℕ) → d ≢ 0 → 0 < count d (0 ∷ []) → ⊥
unfolding count
none_registered d ne here = ground (arith, λ (e : d ≡ 0). ne e)

deallocate_unknown_example : deallocate bump 5120 100 Cache.new start ≡ none
unfolding Heap.new
deallocate_unknown_example =
    deallocate_unknown bump 5120 100 Cache.new start
      (λ d ne here. absurd (none_registered d ne here))

-- Two of its blocks are in the cache.
two_cached :
    (stacks : List Stack) × Caches
      (change (change (λ c. []) 0 (4096 ∷ [])) 0 (5120 ∷ 4096 ∷ []))
      stacks
two_cached =
    let (s1, e1, k1) = add_room 0 4096 new-Caches (omega arith) (omega arith) in
    let (s2, e2, k2) = add_room 0 5120 k1 (omega arith) (omega arith) in (s2, k2)

first_block_inside :
    (j b : ℕ) → get_elem? (4096 ∷ []) j ≡ some b → Descriptor.contains superblock b ≡ true
unfolding Descriptor.new Descriptor.contains
first_block_inside zero b e = ap (Descriptor.contains superblock) (sym (some-injective _ _ e))
first_block_inside (suc j) b e = cc

two_Flushable :
    Flushable 7 1 5120
      (4096 ∷ [])
      []
      in_use
      (record { state = AnchorState.full; avail = 32; count = 0 })
unfolding Descriptor.new Anchor.new Descriptor.contains Descriptor.calc_index count
two_Flushable = record {
  has = record {
    word = refl;
    count_is = refl;
    avail_fits = omega arith;
    count_fits = omega arith;
    linked = done;
  };
  once = λ a. ground arith;
  apart = λ a e. refl;
  loaded = loaded_5120;
  inside = first_block_inside;
  index = refl;
  at = refl;
  small = omega arith;
  fits = omega arith;
  most = omega arith;
}

none_popped : (Partial.try_pop []).0 ≡ none
unfolding Partial.try_pop
none_popped = refl

flush-fill_example :
    (stacks1 : List Stack) × (h1 : Heap (ℕ × ℕ)) × (stacks2 : List Stack) × (h2 : Heap (ℕ × ℕ))
    × (flush_cache bump 0 two_cached.0 in_use ≡ some (stacks1, h1))
    × (fill_cache_from_partial 1 0 stacks1 h1 ≡ some (true, stacks2, h2))
    × Caches
        (change (change (change (λ c. []) 0 (4096 ∷ [])) 0 (5120 ∷ 4096 ∷ [])) 0 (4096 ∷ 5120 ∷ []))
        stacks2
unfolding Heap.new
flush-fill_example =
    flush-fill bump 0 0 7 1 5120 (4096 ∷ []) in_use _ two_Flushable two_cached.1 (omega arith) refl
      refl refl none_popped

-- All blocks of a new superblock are freed in one flush: the superblock is not given back, since its
-- anchor was that of a full one, and a later fill uses its descriptor again, which the page map
-- then has twice.
abbrev flushed_at_once : Option (ℕ × List ℕ)
flushed_at_once = do
  (s1, h1) ← fill_cache_from_new bump 0 Cache.new start
  (s2, h2) ← flush_cache bump 0 s1 h1
  (s3, h3) ← fill_cache bump 2 0 s2 h2
  some (h3.system.1, h3.pagemap)

never_given_back : flushed_at_once ≡ some (0, 36864 ∷ 36864 ∷ [])
unfolding Heap.new fill_cache_from_new flush_cache flush_blocks link gather settle fill_cache
    fill_cache_from_partial add_blocks claim take_blocks Heap.new_superblock Heap.alloc_descriptor
    Heap.retire_descriptor Heap.free_superblock Heap.load_descriptor Descriptor.new
    Descriptor.contains Descriptor.calc_index Cache.new Cache.add_block Cache.flush Stack.new
    Stack.try_push Stack.try_pop Stack.flush Slots.insert Slots.get Slots.get_descriptor
    Partial.push Partial.push_from Partial.try_pop Partial.pop_from get_block_size Anchor.new
    Anchor.from_u64 Anchor.to_u64 Anchor.update Anchor.state_of Anchor.state_bits
never_given_back = refl
