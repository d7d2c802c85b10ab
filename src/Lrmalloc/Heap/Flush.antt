-- ===== src/Lrmalloc/Heap/Flush.antt =====
-- `flush_cache` of src/allocator/lrmalloc/heap.rs: the cached blocks of a size class go back to their
-- superblocks, one run of blocks of the same superblock at a time.
use nolock.Prelude.{
  ℕ, zero, suc, ◌+◌, ◌*◌, ◌%◌, ◌^◌, true, false, Option, none, some, List, [], ◌∷◌, get_elem?, set,
  length, if◌then◌else◌, ◌==◌, ◌>>=◌,
}
use nolock.Lrmalloc.Anchor
use nolock.Lrmalloc.Anchor.{Anchor, AnchorState, empty, full}
use nolock.Lrmalloc.Cache
use nolock.Lrmalloc.Descriptor
use nolock.Lrmalloc.Descriptor.{Descriptor}
use nolock.Lrmalloc.Partial
use nolock.Lrmalloc.Slots
use nolock.Lrmalloc.Stack.{Stack}
use nolock.Lrmalloc.Heap.{System, Heap, write, load_descriptor, free_superblock}

-- The inner loop: the blocks behind `tail` that belong to the same superblock are linked behind it.
-- It gives how many they are, the last one, the other blocks, and the memory.
pub record Run : Type 0 where
  pub more : ℕ
  pub tail : ℕ
  pub others : List ℕ
  pub memory : ℕ → ℕ

unfoldable pub gather : Descriptor → ℕ → List ℕ → (ℕ → ℕ) → Run
gather desc tail [] memory = record { more = 0; tail = tail; others = []; memory = memory }
gather desc tail (block ∷ blocks) memory =
    let rest = gather desc block blocks (write memory tail block) in
    if Descriptor.contains desc block
    then record rest { more = suc rest.more }
    else record { more = 0; tail = tail; others = block ∷ blocks; memory = memory }

module _ {S : Type 0} where
  -- The loop that puts the run of `count` blocks in front of the free ones; it gives the anchor
  -- before and after. `count` is `block_count`.
  unfoldable pub link : ℕ → ℕ → ℕ → ℕ → ℕ → Heap S → Option (Anchor × Anchor × Heap S)
  link zero d index tail count h = none
  link (suc fuel) d index tail count h =
      let desc = h.descriptors d in
      elim (Anchor.from_u64 desc.anchor) [
        | none ↦ none
        | some old ↦
            let old_first_ptr = (desc.super_block + old.avail * desc.block_size) % 2 ^ 64 in
            let new_count = (old.count + count) % 2 ^ 32 in
            let new_anchor : Anchor = record {
              state =
                  if new_count == desc.max_count % 2 ^ 32
                  then AnchorState.empty
                  else AnchorState.partial;
              avail = index;
              count = new_count;
            } in
            let (done, cell) = Anchor.update desc.anchor old new_anchor in
            let h' : Heap S = record h {
              descriptors = write h.descriptors d (record desc { anchor = cell });
              memory = write h.memory tail old_first_ptr;
            } in
            elim done [
              | true ↦ some (old, new_anchor, h')
              | false ↦ link fuel d index tail count h'
            ]
      ]

  module _ (sys : System S) where
    -- What follows from the anchor before and after.
    unfoldable pub settle : ℕ → ℕ → Anchor → Anchor → Heap S → Option (Heap S)
    settle size_class d old new_anchor h = elim old.state [
      | full ↦ do
        partial ← get_elem? h.partial size_class
        some (record h { partial = set h.partial size_class (Partial.push d partial) })
      | _ ↦ elim new_anchor.state [
        | empty ↦
            let desc = h.descriptors d in
            free_superblock sys desc.block_size desc.max_count desc.super_block
              (record h { pagemap = Slots.remove d h.pagemap })
        | _ ↦ some h
      ]
    ]

    -- The outer loop; `fuel` bounds its rounds.
    unfoldable pub flush_blocks : ℕ → ℕ → List ℕ → Heap S → Option (Heap S)
    flush_blocks fuel size_class [] h = some h
    flush_blocks zero size_class (head ∷ blocks) h = none
    flush_blocks (suc fuel) size_class (head ∷ blocks) h = do
      d ← load_descriptor h head
      let run = gather (h.descriptors d) head blocks h.memory
      index ← Descriptor.calc_index (h.descriptors d) head
      (old, new_anchor, h1) ←
          link (suc fuel) d index run.tail (suc run.more) (record h { memory = run.memory })
      h2 ← settle size_class d old new_anchor h1
      flush_blocks fuel size_class run.others h2

    unfoldable pub flush_cache : ℕ → List Stack → Heap S → Option (List Stack × Heap S)
    flush_cache size_class cache h = do
      (blocks, cache') ← Cache.flush cache size_class
      h' ← flush_blocks (length blocks) size_class blocks h
      some (cache', h')
