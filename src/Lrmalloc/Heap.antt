-- ===== src/Lrmalloc/Heap.antt =====
-- src/allocator/lrmalloc/heap.rs: the superblocks, and what passes between them and the cache of a
-- thread. Memory is a word at each address that a pointer is written to, `descriptors` the
-- descriptors at theirs. The system's allocator is a parameter, whose `alloc` may give null, 0. An operation runs
-- alone; `none` is a panic, an access through null, or the end of the fuel of a loop.
pub mod Fill
pub mod Flush
pub mod Chain
pub mod Blocks
pub mod FillLaws
pub mod Runs
pub mod FlushLaws
pub mod RoundTrip
mod Tests
use nolock.Prelude.{
  ℕ, suc, ◌+◌, ◌*◌, ◌%◌, ◌^◌, Bool, Option, none, some, List, [], ◌∷◌, replicate, if◌then◌else◌,
  ◌==◌, ◌>>=◌,
}
use nolock.Lrmalloc.Cache.{size_class_count}
use nolock.Lrmalloc.Descriptor
use nolock.Lrmalloc.Descriptor.{Descriptor}
use nolock.Lrmalloc.Slots

-- `std::alloc`: `is_layout size` tells whether `Layout::from_size_align(size, 8)` is no error.
pub record System (S : Type 0) : Type 0 where
  pub is_layout : ℕ → Bool
  pub descriptor_size : ℕ
  pub alloc : S → ℕ → ℕ × S
  pub dealloc : S → ℕ → ℕ → S

-- `partial` and `recycled_desc` of the heap, the page map, and the memory they are about.
pub record Heap (S : Type 0) : Type 0 where
  pub partial : List (List ℕ)
  pub recycled_desc : List ℕ
  pub pagemap : List ℕ
  pub descriptors : ℕ → Descriptor
  pub memory : ℕ → ℕ
  pub system : S

abbrev pub write {ℓ} : {A : Type ℓ} → (ℕ → A) → ℕ → A → ℕ → A
write m a v b = if a == b then v else m b

module _ {S : Type 0} where
  -- `Heap::new`, with the page map `PAGEMAP`; a new list of slots has one, which is null.
  unfoldable pub new : (ℕ → Descriptor) → (ℕ → ℕ) → S → Heap S
  new descriptors memory system = record {
    partial = replicate size_class_count [];
    recycled_desc = 0 ∷ [];
    pagemap = 0 ∷ [];
    descriptors = descriptors;
    memory = memory;
    system = system;
  }

  -- `PageMap::load_descriptor`
  unfoldable pub load_descriptor : Heap S → ℕ → Option ℕ
  load_descriptor h ptr = Slots.get h.descriptors h.pagemap ptr

  unfoldable pub retire_descriptor : Heap S → ℕ → Heap S
  retire_descriptor h d = record h { recycled_desc = Slots.insert d h.recycled_desc }

  module _ (sys : System S) where
    unfoldable pub alloc_descriptor : Heap S → ℕ × Heap S
    alloc_descriptor h =
        let (found, recycled) = Slots.get_descriptor h.recycled_desc in
        elim found [
          | some d ↦ (d, record h { recycled_desc = recycled })
          | none ↦
              let (raw_ptr, system) = sys.alloc h.system sys.descriptor_size in
              (raw_ptr, record h { recycled_desc = recycled; system = system })
        ]

    -- `n` is `N`; a multiplication of `usize` wraps. A write of the descriptor through null is a fault.
    unfoldable pub new_superblock : ℕ → ℕ → Option ℕ → Heap S → Option (ℕ × Heap S)
    new_superblock n block_size size_class h =
        let superblock_size = block_size * n % 2 ^ 64 in
        if sys.is_layout superblock_size
        then (do
          let (superblock_ptr, system) = sys.alloc h.system superblock_size
          let descriptor = Descriptor.new block_size n size_class superblock_ptr
          let (d, h') = alloc_descriptor (record h { system = system })
          if d == 0
              then none
              else some (d, record h' { descriptors = write h'.descriptors d descriptor }))
        else none

    unfoldable pub free_superblock : ℕ → ℕ → ℕ → Heap S → Option (Heap S)
    free_superblock block_size block_count superblock_ptr h =
        let size = block_size * block_count % 2 ^ 64 in
        if sys.is_layout size
        then some (record h { system = sys.dealloc h.system superblock_ptr size })
        else none

    unfoldable pub allocate_large : ℕ → Heap S → Option (ℕ × Heap S)
    allocate_large size h = do
      (d, h') ← new_superblock 1 size none h
      some ((h'.descriptors d).super_block, record h' { pagemap = Slots.insert d h'.pagemap })

    unfoldable pub free_large : ℕ → ℕ → Heap S → Option (Heap S)
    free_large ptr size h = do
      d ← load_descriptor h ptr
      h' ← free_superblock size 1 (h.descriptors d).super_block h
      some (retire_descriptor h' d)
