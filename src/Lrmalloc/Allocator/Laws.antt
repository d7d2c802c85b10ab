-- ===== src/Lrmalloc/Allocator/Laws.antt =====
-- What the allocator of src/allocator/lrmalloc.rs gives out and takes back.
use nolock.Prelude.{
  ℕ, suc, ◌+◌, ◌*◌, ◌%◌, ◌^◌, ◌<◌, ◌≡◌, ◌≢◌, refl, sym, ◌∙◌, subst, Bool, true, false, none, some,
  List, [], ◌∷◌, length, if-eq, get_elem?, Option-cases, inl, inr, lt_of_get_elem?, some-injective,
}
use nolock.Lrmalloc.Cache
use nolock.Lrmalloc.Cache.{Caches, change, try_alloc_refines, stack_size, size_class_count}
use nolock.Lrmalloc.Descriptor
use nolock.Lrmalloc.Descriptor.{Descriptor}
use nolock.Lrmalloc.Partial
use nolock.Lrmalloc.Slots
use nolock.Lrmalloc.Slots.{count, get-some}
use nolock.Lrmalloc.Stack
use nolock.Lrmalloc.Stack.{Stack}
use nolock.Lrmalloc.SizeClasses.{
  size_classes, get_block_size, get_size_class_index, least_size_class,
}
use nolock.Lrmalloc.Heap.{System, Heap, load_descriptor}
use nolock.Lrmalloc.Heap.FillLaws.{fill_cache_lem, DescriptorFrom}
use nolock.Lrmalloc.Heap.Blocks.{Caches-same, change-twice, change-none, add_room, block_ptrs}
use nolock.Lrmalloc.Allocator.{allocate, deallocate}

class-lt : (c b : ℕ) → get_block_size c ≡ some b → c < size_class_count
unfolding get_block_size
class-lt c b e = lt_of_get_elem? size_classes c b e

-- What the cache gives for a class, once it is known what it holds.
take_cached :
    {held : ℕ → List ℕ} {stacks : List Stack} (c : ℕ) (l : List ℕ)
    → Caches held stacks
    → c < size_class_count
    → held c ≡ l
    → (stacks' : List Stack) × (Cache.try_alloc stacks c ≡ some ((Stack.pop l).0, stacks'))
      × Caches (change held c (Stack.pop l).1) stacks'
take_cached {held} {stacks} c l k hc has =
    subst
      (λ m.
        (stacks' : List Stack) × (Cache.try_alloc stacks c ≡ some ((Stack.pop m).0, stacks'))
        × Caches (change held c (Stack.pop m).1) stacks')
      has (try_alloc_refines c k hc)

module _ {S : Type 0} (sys : System S) where
  -- A cached block is given out.
  pub allocate_cached :
      (fuel size c p : ℕ) (rest : List ℕ) {held : ℕ → List ℕ} {stacks : List Stack} (h : Heap S)
      → Caches held stacks
      → c < size_class_count
      → get_size_class_index size ≡ some c
      → held c ≡ p ∷ rest
      → (stacks' : List Stack) × (allocate sys fuel size stacks h ≡ some (p, stacks', h))
        × Caches (change held c rest) stacks'
  unfolding allocate
  allocate_cached fuel size c p rest h k hc class has =
      let (stacks', e, k') = take_cached c (p ∷ rest) k hc has in
      (stacks', rw (allocate, class, e) refl, k')

  -- An allocation of a small size, with no block of its class in the cache and no partly used
  -- superblock, where the new superblock's layout is none of an error and the system gives memory, no
  -- null: it succeeds, in a block that has room for the size; the block is the last one of a new superblock, whose
  -- 31 other blocks are in the cache of the class, and whose descriptor is in the page map, at a
  -- recycled address, or at one from the system where none is recycled.
  pub allocate-new :
      (fuel size c b : ℕ) {held : ℕ → List ℕ} {stacks : List Stack} (h : Heap S) {col rest : List ℕ}
      → Caches held stacks
      → get_size_class_index size ≡ some c
      → get_block_size c ≡ some b
      → held c ≡ []
      → get_elem? h.partial c ≡ some col
      → Partial.try_pop col ≡ (none, rest)
      → sys.is_layout (b * stack_size % 2 ^ 64) ≡ true
      → (sys.alloc h.system (b * stack_size % 2 ^ 64)).0 ≢ 0
      → (sys.alloc (sys.alloc h.system (b * stack_size % 2 ^ 64)).1 sys.descriptor_size).0 ≢ 0
      → let (sb, system) = sys.alloc h.system (b * stack_size % 2 ^ 64) in
        let desc = Descriptor.new b stack_size (some c) sb in
        (d : ℕ) × (stacks' : List Stack) × (h' : Heap S) × (allocate sys (suc fuel) size stacks h
          ≡ some (sb + b * 31, stacks', h'))
        × DescriptorFrom sys h.recycled_desc system d
        × (size < b)
        × (h'.descriptors d ≡ desc)
        × (h'.pagemap ≡ Slots.insert d h.pagemap)
        × Caches (change held c (block_ptrs desc 31)) stacks'
  unfolding allocate block_ptrs Descriptor.new
  allocate-new fuel size c b {held} h k class bs nothing at popped fits given given' =
      let hc = class-lt c b bs in
      let (stacks1, e1, k1) = take_cached c [] k hc nothing in
      let now : change held c [] c ≡ [] = if-eq c c (held c) refl in
      let (d, stacks2, h', e2, source, found, registered, k2) =
        fill_cache_lem sys fuel c b h k1 hc now bs at popped fits given given' in
      let desc =
        Descriptor.new b stack_size (some c) (sys.alloc h.system (b * stack_size % 2 ^ 64)).0 in
      let (stacks3, e3, k3) =
        take_cached c (block_ptrs desc 32) k2 hc (if-eq c c (change held c [] c) refl) in
      let (b', bs', lt) = (least_size_class size c class).0 in
      (
        d,
        stacks3,
        h',
        rw (allocate, class, e1, e2, e3) refl,
        source,
        subst (λ t. size < t) (some-injective _ _ (sym bs' ∙ bs)) lt,
        found,
        registered,
        Caches-same (λ c'. change-twice (change held c []) c _ _ c' ∙ change-twice held c _ _ c')
            k3,
      )

  -- A block of a registered superblock goes to the cache of its class, where that has room; nothing
  -- else changes.
  pub deallocate_cached :
      (ptr size d c : ℕ) {held : ℕ → List ℕ} {stacks : List Stack} {h : Heap S}
      → Caches held stacks
      → c < size_class_count
      → load_descriptor h ptr ≡ some d
      → (h.descriptors d).size_class ≡ some c
      → length (held c) < stack_size
      → (stacks' : List Stack) × (deallocate sys ptr size stacks h ≡ some (stacks', h))
        × Caches (change held c (ptr ∷ held c)) stacks'
  unfolding deallocate
  deallocate_cached ptr size d c k hc loaded class room =
      let (stacks', e, k') = add_room c ptr k hc room in (stacks', rw (loaded, class, e) refl, k')

  -- A block that goes to a cache with room is the next one that an allocation of its class gets.
  pub deallocate-allocate :
      (fuel ptr size d c : ℕ) {held : ℕ → List ℕ} {stacks : List Stack} {h : Heap S}
      → Caches held stacks
      → c < size_class_count
      → load_descriptor h ptr ≡ some d
      → (h.descriptors d).size_class ≡ some c
      → length (held c) < stack_size
      → get_size_class_index size ≡ some c
      → (stacks1 : List Stack) × (stacks2 : List Stack) × (deallocate sys ptr size stacks h
          ≡ some (stacks1, h))
        × (allocate sys fuel size stacks1 h ≡ some (ptr, stacks2, h))
        × Caches held stacks2
  deallocate-allocate fuel ptr size d c {held} {stacks} {h} k hc loaded class room index =
      let (stacks1, e, k1) = deallocate_cached ptr size d c k hc loaded class room in
      let (stacks2, f, k2) =
        allocate_cached fuel size c ptr (held c) h k1 hc index (if-eq c c (held c) refl) in
      (
        stacks1,
        stacks2,
        e,
        f,
        Caches-same (λ c'. change-twice held c _ _ c' ∙ sym (change-none held c (held c) c' refl))
            k2,
      )

  -- A pointer into no registered superblock is refused: the allocator panics.
  pub deallocate_unknown :
      (ptr size : ℕ) (stacks : List Stack) (h : Heap S)
      → ((d : ℕ)
          → d ≢ 0
          → 0 < count d h.pagemap
          → Descriptor.contains (h.descriptors d) ptr ≡ false)
      → deallocate sys ptr size stacks h ≡ none
  unfolding deallocate load_descriptor
  deallocate_unknown ptr size stacks h outside =
      elim (Option-cases (Slots.get h.descriptors h.pagemap ptr)) [
        | inl e ↦ rw e refl
        | inr (d, e) ↦
            let (nd, here, inside) = get-some h.descriptors h.pagemap ptr d e in
            absurd (clash inside (outside d nd here))
      ]
    where
      clash : {b : Bool} → b ≡ true → b ≡ false → ⊥
      clash e f = cc
