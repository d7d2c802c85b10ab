-- ===== src/Lrmalloc/Heap/Fill.antt =====
-- `fill_cache` of src/allocator/lrmalloc/heap.rs: blocks for the cache, from a partly used superblock
-- or from a new one.
use nolock.Prelude.{
  ℕ, zero, suc, ◌+◌, ◌*◌, ◌%◌, ◌^◌, Bool, true, false, Option, none, some, List, get_elem?, set,
  if◌then◌else◌, ◌>>=◌, ok, err, ◌==◌,
}
use nolock.Lrmalloc.Anchor
use nolock.Lrmalloc.Anchor.{Anchor, AnchorState, empty}
use nolock.Lrmalloc.Cache
use nolock.Lrmalloc.Cache.{stack_size}
use nolock.Lrmalloc.Descriptor.{Descriptor}
use nolock.Lrmalloc.Partial
use nolock.Lrmalloc.SizeClasses.{get_block_size}
use nolock.Lrmalloc.Slots
use nolock.Lrmalloc.Stack.{Stack}
use nolock.Lrmalloc.Heap.{System, Heap, write, new_superblock, retire_descriptor}

-- The blocks from `current_ptr` along their links.
unfoldable pub take_blocks : ℕ → ℕ → ℕ → (ℕ → ℕ) → List Stack → Option (List Stack)
take_blocks zero size_class current_ptr memory cache = some cache
take_blocks (suc n) size_class current_ptr memory cache = do
  (answer, cache') ← Cache.add_block cache size_class current_ptr
  elim answer [ ok _ ↦ take_blocks n size_class (memory current_ptr) memory cache' | err _ ↦ none ]

-- The `n` blocks of a superblock from the block `block_index` on.
unfoldable pub add_blocks : ℕ → ℕ → Descriptor → ℕ → List Stack → Option (List Stack)
add_blocks zero block_index d size_class cache = some cache
add_blocks (suc n) block_index d size_class cache = do
  (answer, cache') ← Cache.add_block cache size_class (d.super_block + d.block_size * block_index)
  elim answer [ ok _ ↦ add_blocks n (suc block_index) d size_class cache' | err _ ↦ none ]

module _ {S : Type 0} where
  -- The loop that takes all free blocks of a superblock: the anchor it had, or `none` for an empty one.
  unfoldable pub claim : ℕ → ℕ → Heap S → Option (Option Anchor × Heap S)
  claim zero d h = none
  claim (suc fuel) d h =
      let desc = h.descriptors d in
      elim (Anchor.from_u64 desc.anchor) [
        | none ↦ none
        | some old ↦
            let new_anchor : Anchor = record {
              state = AnchorState.full;
              avail = desc.max_count % 2 ^ 32;
              count = 0;
            } in
            let (done, cell) = Anchor.update desc.anchor old new_anchor in
            let h' : Heap S = record h {
              descriptors = write h.descriptors d (record desc { anchor = cell });
            } in
            elim old.state [
              | empty ↦ some (none, h)
              | _ ↦ elim done [ true ↦ some (some old, h') | false ↦ claim fuel d h' ]
            ]
      ]

  -- `fuel` bounds the superblocks that are tried.
  unfoldable pub fill_cache_from_partial :
      ℕ → ℕ → List Stack → Heap S → Option (Bool × List Stack × Heap S)
  fill_cache_from_partial zero size_class cache h = none
  fill_cache_from_partial (suc fuel) size_class cache h = elim (get_elem? h.partial size_class) [
    | none ↦ none
    | some partial_col ↦
        let (popped, rest) = Partial.try_pop partial_col in
        let h1 : Heap S = record h { partial = set h.partial size_class rest } in
        elim popped [
          | none ↦ some (false, cache, h1)
          | some d ↦ elim (claim (suc fuel) d h1) [
            | none ↦ none
            | some (claimed, h2) ↦ elim claimed [
              | none ↦ fill_cache_from_partial fuel size_class cache (retire_descriptor h2 d)
              | some old ↦ do
                let desc = h2.descriptors d
                let first = (desc.super_block + old.avail * desc.block_size) % 2 ^ 64
                cache' ← take_blocks old.count size_class first h2.memory cache
                some (true, cache', h2)
            ]
          ]
        ]
  ]

  module _ (sys : System S) where
    -- An offset from a null superblock is a fault.
    unfoldable pub fill_cache_from_new : ℕ → List Stack → Heap S → Option (List Stack × Heap S)
    fill_cache_from_new size_class cache h = do
      block_size ← get_block_size size_class
      (d, h') ← new_superblock sys stack_size block_size (some size_class) h
      let desc = h'.descriptors d
      cache' ← if desc.super_block == 0 then none else add_blocks stack_size 0 desc size_class cache
      some (cache', record h' { pagemap = Slots.insert d h'.pagemap })

    unfoldable pub fill_cache : ℕ → ℕ → List Stack → Heap S → Option (List Stack × Heap S)
    fill_cache fuel size_class cache h = do
      (filled, cache', h') ← fill_cache_from_partial fuel size_class cache h
      if filled then some (cache', h') else fill_cache_from_new size_class cache' h'
