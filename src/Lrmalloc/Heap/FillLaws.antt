-- ===== src/Lrmalloc/Heap/FillLaws.antt =====
-- What `fill_cache` of src/allocator/lrmalloc/heap.rs puts into the cache.
use nolock.Prelude.{
  ℕ, suc, ◌+◌, ◌*◌, ◌%◌, ◌^◌, ◌<◌, ◌≤◌, ◌≡◌, ◌≢◌, refl, ap, ◌∙◌, true, false, none, some, List, [],
  length, arith, get_elem?, set, Option-cases, inl, inr, ◌⊎◌, false, ◌==◌,
}
use nolock.Lrmalloc.Anchor
use nolock.Lrmalloc.Anchor.{Anchor, AnchorState}
use nolock.Lrmalloc.Cache.{Caches, change, stack_size, size_class_count}
use nolock.Lrmalloc.Descriptor
use nolock.Lrmalloc.Descriptor.{Descriptor}
use nolock.Lrmalloc.Partial
use nolock.Lrmalloc.Slots
use nolock.Lrmalloc.Stack.{Stack}
use nolock.Lrmalloc.SizeClasses.{get_block_size}
use nolock.Lrmalloc.Heap.{System, Heap, write, new_superblock, alloc_descriptor}
use nolock.Lrmalloc.Heap.Fill.{
  take_blocks, add_blocks, claim, fill_cache_from_partial, fill_cache_from_new, fill_cache,
}
use nolock.Lrmalloc.Heap.Chain.{done, block_at, Free, Free-read, Free-update, write-same}
use nolock.Lrmalloc.Heap.Blocks.{onto, take_blocks_lem, block_ptrs, add_blocks_lem}

-- The anchor of a superblock without free blocks.
abbrev pub all_taken : Descriptor → Anchor
all_taken desc = record { state = AnchorState.full; avail = desc.max_count % 2 ^ 32; count = 0 }

Nat_eq_false : {a : ℕ} → a ≢ 0 → (a == 0) ≡ false
Nat_eq_false ne = ground arith

module _ {S : Type 0} where
  abbrev pub taken : ℕ → Heap S → Heap S
  taken d h =
      let desc = h.descriptors d in
      record h {
        descriptors =
            write h.descriptors d (record desc { anchor = Anchor.to_u64 (all_taken desc) });
      }

  claim_at :
      (fuel d : ℕ) (h : Heap S) (state : AnchorState) (avail count : ℕ)
      → let anchor : Anchor = record { state = state; avail = avail; count = count } in
        Anchor.from_u64 (h.descriptors d).anchor ≡ some anchor
        → Anchor.update (h.descriptors d).anchor anchor (all_taken (h.descriptors d))
          ≡ (true, Anchor.to_u64 (all_taken (h.descriptors d)))
        → state ≢ AnchorState.empty
        → claim (suc fuel) d h ≡ some (some anchor, taken d h)
  unfolding claim
  claim_at fuel d h AnchorState.empty avail count e u ne = absurd (ne refl)
  claim_at fuel d h AnchorState.partial avail count e u ne =
      rw (claim, e, ap (λ p. p.0) u, ap (λ p. p.1) u) refl
  claim_at fuel d h AnchorState.full avail count e u ne =
      rw (claim, e, ap (λ p. p.0) u, ap (λ p. p.1) u) refl

  taken-Free :
      (d : ℕ) (h : Heap S)
      → (h.descriptors d).max_count < 2 ^ 31
      → Free (taken d h) d (all_taken (h.descriptors d)) []
  taken-Free d h small =
      let same = write-same h.descriptors d d _ refl in
      record {
        word = ap (λ desc. desc.anchor) same;
        count_is = refl;
        avail_fits = omega arith;
        count_fits = omega arith;
        linked = done;
      }

  -- Where the collection of a size class gives a superblock with free blocks, and the cache has room for
  -- them, they all go into the cache of the class, the first of the chain first, and the superblock
  -- has none left; the other classes of the cache keep theirs.
  pub fill_cache_from_partial_lem :
      (fuel c d : ℕ) {held : ℕ → List ℕ} {stacks : List Stack} {h : Heap S} (anchor : Anchor)
      {blocks col rest : List ℕ}
      → Caches held stacks
      → c < size_class_count
      → get_elem? h.partial c ≡ some col
      → Partial.try_pop col ≡ (some d, rest)
      → Free h d anchor blocks
      → anchor.state ≢ AnchorState.empty
      → (h.descriptors d).max_count < 2 ^ 31
      → length (held c) + length blocks ≤ stack_size
      → (stacks' : List Stack) × (h' : Heap S) × (fill_cache_from_partial (suc fuel) c stacks h
          ≡ some (true, stacks', h'))
        × Caches (change held c (onto blocks (held c))) stacks'
        × Free h' d (all_taken (h.descriptors d)) []
        × (h'.partial ≡ set h.partial c rest)
  unfolding fill_cache_from_partial
  fill_cache_from_partial_lem fuel c d {held} {stacks} {h} anchor {blocks} {col} {rest} k hc at
        popped f some_free small room =
      let h1 : Heap S = record h { partial = set h.partial c rest } in
      let claimed =
        claim_at fuel d h1 anchor.state anchor.avail anchor.count (Free-read f)
          (Free-update (all_taken (h.descriptors d)) f) some_free in
      let same =
        write-same h.descriptors d d
          (record (h.descriptors d) { anchor = Anchor.to_u64 (all_taken (h.descriptors d)) })
          refl in
      let (stacks', took, k') =
        take_blocks_lem c blocks (block_at (h.descriptors d) anchor.avail) k hc room f.linked in
      let took' : take_blocks anchor.count c (block_at ((taken d h1).descriptors d) anchor.avail)
            h.memory stacks
          ≡ some stacks' =
        ap
          (λ n.
            take_blocks n c (block_at ((taken d h1).descriptors d) anchor.avail) h.memory stacks)
          f.count_is
        ∙ ap (λ desc. take_blocks (length blocks) c (block_at desc anchor.avail) h.memory stacks)
            same
        ∙ took in
      (
        stacks',
        taken d h1,
        rw (fill_cache_from_partial, at, ap (λ p. p.0) popped, ap (λ p. p.1) popped, claimed, took')
            refl,
        k',
        taken-Free d h1 small,
        refl,
      )

  pub fill_cache_from_partial-none :
      (fuel c : ℕ) {stacks : List Stack} (h : Heap S) {col rest : List ℕ}
      → get_elem? h.partial c ≡ some col
      → Partial.try_pop col ≡ (none, rest)
      → fill_cache_from_partial (suc fuel) c stacks h
        ≡ some (false, stacks, record h { partial = set h.partial c rest })
  unfolding fill_cache_from_partial
  fill_cache_from_partial-none fuel c h at popped =
      rw (fill_cache_from_partial, at, ap (λ p. p.0) popped, ap (λ p. p.1) popped) refl

  module _ (sys : System S) where
    -- The memory of a new descriptor is a recycled one, or comes from the system; nothing else changes.
    abbrev pub DescriptorFrom : List ℕ → S → ℕ → Type 0
    DescriptorFrom recycled system d =
        ((Slots.get_descriptor recycled).0 ≡ some d)
        ⊎ (((Slots.get_descriptor recycled).0 ≡ none)
            × ((sys.alloc system sys.descriptor_size).0 ≡ d))

    alloc_descriptor_keeps :
        (h : Heap S)
        → ((alloc_descriptor sys h).1.pagemap ≡ h.pagemap)
          × ((alloc_descriptor sys h).1.partial ≡ h.partial)
          × DescriptorFrom h.recycled_desc h.system (alloc_descriptor sys h).0
    unfolding alloc_descriptor
    alloc_descriptor_keeps h = elim (Option-cases (Slots.get_descriptor h.recycled_desc).0) [
      | inl e ↦ (ground (arith, e), ground (arith, e), inr (e, rw (alloc_descriptor, e) refl))
      | inr (d, e) ↦ (ground (arith, e), ground (arith, e), inl (rw (alloc_descriptor, e) refl))
    ]

    from-ne :
        (h : Heap S) (d : ℕ)
        → (sys.alloc h.system sys.descriptor_size).0 ≢ 0
        → DescriptorFrom h.recycled_desc h.system d
        → d ≢ 0
    from-ne h d given (inl e) = Slots.get_descriptor-ne h.recycled_desc d e
    from-ne h d given (inr (e, f)) = λ z. given (f ∙ z)

    -- With no block in the cache, a layout that is none of an error, and memory from the system, a new superblock
    -- puts its 32 blocks into the cache, and its descriptor into the page map.
    pub fill_cache_from_new_lem :
        (c b : ℕ) {held : ℕ → List ℕ} {stacks : List Stack} (h : Heap S)
        → Caches held stacks
        → c < size_class_count
        → held c ≡ []
        → get_block_size c ≡ some b
        → sys.is_layout (b * stack_size % 2 ^ 64) ≡ true
        → (sys.alloc h.system (b * stack_size % 2 ^ 64)).0 ≢ 0
        → (sys.alloc (sys.alloc h.system (b * stack_size % 2 ^ 64)).1 sys.descriptor_size).0 ≢ 0
        → let (ptr, system) = sys.alloc h.system (b * stack_size % 2 ^ 64) in
          let desc = Descriptor.new b stack_size (some c) ptr in
          (d : ℕ) × (stacks' : List Stack) × (h' : Heap S) × (fill_cache_from_new sys c stacks h
            ≡ some (stacks', h'))
          × DescriptorFrom h.recycled_desc system d
          × (h'.descriptors d ≡ desc)
          × (h'.pagemap ≡ Slots.insert d h.pagemap)
          × Caches (change held c (block_ptrs desc stack_size)) stacks'
    unfolding fill_cache_from_new new_superblock block_ptrs Descriptor.new
    fill_cache_from_new_lem c b {held} {stacks} h k hc nothing size fits given given' =
        let (ptr, system) = sys.alloc h.system (b * stack_size % 2 ^ 64) in
        let desc = Descriptor.new b stack_size (some c) ptr in
        let h0 : Heap S = record h { system = system } in
        let (d, h1) = alloc_descriptor sys h0 in
        let (kept, _, source) = alloc_descriptor_keeps h0 in
        let there : (d == 0) ≡ false = Nat_eq_false (from-ne h0 d given' source) in
        let block : (ptr == 0) ≡ false = Nat_eq_false given in
        let found = write-same h1.descriptors d d desc refl in
        let (stacks', added, k') = add_blocks_lem c stack_size 0 desc k hc nothing (omega arith) in
        let added' : add_blocks stack_size 0 (write h1.descriptors d desc d) c stacks
            ≡ some stacks' =
          ap (λ t. add_blocks stack_size 0 t c stacks) found ∙ added in
        let block' : ((write h1.descriptors d desc d).super_block == 0) ≡ false =
          ap (λ t. t.super_block == 0) found ∙ block in
        (
          d,
          stacks',
          record h1 {
            descriptors = write h1.descriptors d desc;
            pagemap = Slots.insert d h1.pagemap;
          },
          rw (size, fits, there, block', added') refl,
          source,
          found,
          ap (Slots.insert d) kept,
          k',
        )

    -- The same by `fill_cache`, where the collection of the class has no superblock.
    pub fill_cache_lem :
        (fuel c b : ℕ) {held : ℕ → List ℕ} {stacks : List Stack} (h : Heap S) {col rest : List ℕ}
        → Caches held stacks
        → c < size_class_count
        → held c ≡ []
        → get_block_size c ≡ some b
        → get_elem? h.partial c ≡ some col
        → Partial.try_pop col ≡ (none, rest)
        → sys.is_layout (b * stack_size % 2 ^ 64) ≡ true
        → (sys.alloc h.system (b * stack_size % 2 ^ 64)).0 ≢ 0
        → (sys.alloc (sys.alloc h.system (b * stack_size % 2 ^ 64)).1 sys.descriptor_size).0 ≢ 0
        → let (ptr, system) = sys.alloc h.system (b * stack_size % 2 ^ 64) in
          let desc = Descriptor.new b stack_size (some c) ptr in
          (d : ℕ) × (stacks' : List Stack) × (h' : Heap S) × (fill_cache sys (suc fuel) c stacks h
            ≡ some (stacks', h'))
          × DescriptorFrom h.recycled_desc system d
          × (h'.descriptors d ≡ desc)
          × (h'.pagemap ≡ Slots.insert d h.pagemap)
          × Caches (change held c (block_ptrs desc stack_size)) stacks'
    unfolding fill_cache
    fill_cache_lem fuel c b h {col} {rest} k hc nothing size at popped fits given given' =
        let h1 : Heap S = record h { partial = set h.partial c rest } in
        let (d, stacks', h', e, source, found, registered, k') =
          fill_cache_from_new_lem c b h1 k hc nothing size fits given given' in
        (
          d,
          stacks',
          h',
          rw (fill_cache_from_partial-none fuel c h at popped, e) refl,
          source,
          found,
          registered,
          k',
        )
