-- ===== src/Lrmalloc/Allocator.antt =====
-- src/allocator/lrmalloc.rs: the allocator, with the cache of the one thread that calls it, whose
-- `RefCell` no one else borrows. `none` is a panic, or the end of the fuel of a loop.
pub mod Laws
use nolock.Prelude.{ℕ, Option, none, some, List, ◌>>=◌, ok, err}
use nolock.Lrmalloc.Cache
use nolock.Lrmalloc.Heap.{System, Heap, load_descriptor, allocate_large, free_large}
use nolock.Lrmalloc.Heap.Fill.{fill_cache}
use nolock.Lrmalloc.Heap.Flush.{flush_cache}
use nolock.Lrmalloc.SizeClasses.{get_size_class_index}
use nolock.Lrmalloc.Stack.{Stack}

module _ {S : Type 0} (sys : System S) where
  unfoldable pub allocate : ℕ → ℕ → List Stack → Heap S → Option (ℕ × List Stack × Heap S)
  allocate fuel size cache h = elim (get_size_class_index size) [
    | none ↦ do (ptr, h') ← allocate_large sys size h; some (ptr, cache, h')
    | some size_class ↦ do
      (found, cache1) ← Cache.try_alloc cache size_class
      elim found [
        | some ptr ↦ some (ptr, cache1, h)
        | none ↦ do
          (cache2, h') ← fill_cache sys fuel size_class cache1 h
          (filled, cache3) ← Cache.try_alloc cache2 size_class
          elim filled [ some ptr ↦ some (ptr, cache3, h') | none ↦ none ]
      ]
  ]

  -- `size` is that of the layout.
  unfoldable pub deallocate : ℕ → ℕ → List Stack → Heap S → Option (List Stack × Heap S)
  deallocate ptr size cache h = do
    d ← load_descriptor h ptr
    elim (h.descriptors d).size_class [
      | none ↦ do h' ← free_large sys ptr size h; some (cache, h')
      | some size_class ↦ do
        (answer, cache1) ← Cache.add_block cache size_class ptr
        elim answer [
          | ok _ ↦ some (cache1, h)
          | err _ ↦ do
            (cache2, h') ← flush_cache sys size_class cache1 h
            (again, cache3) ← Cache.add_block cache2 size_class ptr
            elim again [ ok _ ↦ some (cache3, h') | err _ ↦ none ]
        ]
    ]
