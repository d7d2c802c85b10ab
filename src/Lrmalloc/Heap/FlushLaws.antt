-- ===== src/Lrmalloc/Heap/FlushLaws.antt =====
-- What `flush_cache` of src/allocator/lrmalloc/heap.rs gives back to a superblock.
use nolock.Prelude.{
  ℕ, suc, ◌+◌, ◌%◌, ◌^◌, ◌<◌, ◌≤◌, ◌≡◌, refl, sym, ap, ◌∙◌, subst, true, some, List, [], ◌∷◌, ◌++◌,
  length, if◌then◌else◌, ◌==◌, if-ne, arith, get_elem?, set, length-append, append-nil,
}
use nolock.Lrmalloc.Anchor
use nolock.Lrmalloc.Anchor.{Anchor, AnchorState}
use nolock.Lrmalloc.Cache.{Caches, change, flush_refines, stack_size, size_class_count}
use nolock.Lrmalloc.Descriptor
use nolock.Lrmalloc.Descriptor.{Descriptor}
use nolock.Lrmalloc.Partial
use nolock.Lrmalloc.Slots.{count}
use nolock.Lrmalloc.Stack.{Stack}
use nolock.Lrmalloc.Heap.{System, Heap, write, load_descriptor}
use nolock.Lrmalloc.Heap.Runs.{Distinct, Gathered, gather_lem, gather_all}
use nolock.Lrmalloc.Heap.Flush.{Run, gather, link, settle, flush_blocks, flush_cache}
use nolock.Lrmalloc.Heap.Chain.{Linked, block_at, Free, Free-read, Free-update, write-same}

-- The anchor behind a run of `n` blocks.
abbrev pub anchor_after : Descriptor → Anchor → ℕ → ℕ → Anchor
anchor_after desc old index n =
    let new_count = (old.count + n) % 2 ^ 32 in
    record {
      state =
          if new_count == desc.max_count % 2 ^ 32 then AnchorState.empty else AnchorState.partial;
      avail = index;
      count = new_count;
    }

-- What becomes of the collection of partly used superblocks.
abbrev pub partial_after : ℕ → ℕ → AnchorState → List ℕ → List (List ℕ) → List (List ℕ)
partial_after c d AnchorState.full col partial = set partial c (Partial.push d col)
partial_after c d AnchorState.partial col partial = partial
partial_after c d AnchorState.empty col partial = partial

module _ {S : Type 0} where
  abbrev pub linked_heap : ℕ → ℕ → ℕ → Anchor → Anchor → Heap S → Heap S
  linked_heap d index tail old new_anchor h =
      let desc = h.descriptors d in
      record h {
        descriptors = write h.descriptors d (record desc { anchor = Anchor.to_u64 new_anchor });
        memory = write h.memory tail (block_at desc old.avail);
      }

  -- Where no one else changes the anchor, one round links the run.
  link_at :
      (fuel d index tail n : ℕ) (h : Heap S) (old : Anchor)
      → Anchor.from_u64 (h.descriptors d).anchor ≡ some old
      → (let new_anchor = anchor_after (h.descriptors d) old index n in
          Anchor.update (h.descriptors d).anchor old new_anchor ≡ (true, Anchor.to_u64 new_anchor))
      → link (suc fuel) d index tail n h
        ≡ some (
          old,
          anchor_after (h.descriptors d) old index n,
          linked_heap d index tail old (anchor_after (h.descriptors d) old index n) h,
        )
  unfolding link
  link_at fuel d index tail n h old e u = rw (link, e, ap (λ p. p.0) u, ap (λ p. p.1) u) refl

  -- The heap in which the run ends with the links of the free blocks.
  linked-Free :
      (d i head : ℕ) {blocks free : List ℕ} {h : Heap S} {old : Anchor} (r : Run)
      (g : Gathered head blocks h.memory r)
      → Free h d old free
      → ((a : ℕ) → 0 < count a (head ∷ g.ran) → count a free ≡ 0)
      → block_at (h.descriptors d) i ≡ head
      → i < 2 ^ 31
      → length (head ∷ g.ran) + length free < 2 ^ 31
      → let new_anchor = anchor_after (h.descriptors d) old i (suc r.more) in
        Free
          (linked_heap d i r.tail old new_anchor (record h { memory = r.memory }))
          d
          new_anchor
          ((head ∷ g.ran) ++ free)
  linked-Free d i head {blocks} {free} {h} {old} r g f apart at small fits =
      let new_anchor = anchor_after (h.descriptors d) old i (suc r.more) in
      let desc : Descriptor = record (h.descriptors d) { anchor = Anchor.to_u64 new_anchor } in
      let same : write h.descriptors d desc d ≡ desc = write-same h.descriptors d d desc refl in
      let size = length-append (head ∷ g.ran) free in
      record {
        word = ap (λ t. t.anchor) same;
        count_is = omega (arith, f.count_is, g.more_is, size);
        avail_fits = small;
        count_fits = omega (arith, size);
        linked =
            subst
              (λ q.
                Linked (write r.memory r.tail (block_at (h.descriptors d) old.avail)) q
                  ((head ∷ g.ran) ++ free))
              (sym at ∙ sym (ap (λ t. block_at t i) same))
              (g.chain (block_at (h.descriptors d) old.avail) free apart f.linked);
      }

  settle_at :
      (sys : System S) (c d : ℕ) (state : AnchorState) (avail n index n' : ℕ) (h : Heap S)
      {col : List ℕ}
      → get_elem? h.partial c ≡ some col
      → settle sys c d
          (record { state = state; avail = avail; count = n })
          (record { state = AnchorState.partial; avail = index; count = n' })
          h
        ≡ some (record h { partial = partial_after c d state col h.partial })
  unfolding settle
  settle_at sys c d AnchorState.full avail n index n' h at = rw at refl
  settle_at sys c d AnchorState.partial avail n index n' h at = refl
  settle_at sys c d AnchorState.empty avail n index n' h at = refl

  -- The cached blocks `head ∷ blocks` of one superblock go in front of its free ones.
  flush_run :
      (sys : System S) (c d i head : ℕ) (blocks free : List ℕ) (h : Heap S) (old : Anchor)
      {col : List ℕ}
      → Free h d old free
      → Distinct (head ∷ blocks)
      → ((a : ℕ) → 0 < count a (head ∷ blocks) → count a free ≡ 0)
      → load_descriptor h head ≡ some d
      → ((j b : ℕ) → get_elem? blocks j ≡ some b → Descriptor.contains (h.descriptors d) b ≡ true)
      → Descriptor.calc_index (h.descriptors d) head ≡ some i
      → block_at (h.descriptors d) i ≡ head
      → i < 2 ^ 31
      → length (head ∷ blocks) + length free < (h.descriptors d).max_count
      → (h.descriptors d).max_count < 2 ^ 31
      → get_elem? h.partial c ≡ some col
      → (h' : Heap S) × (new_anchor : Anchor) × (flush_blocks sys
            (suc (length blocks))
            c
            (head ∷ blocks)
            h
          ≡ some h')
        × Free h' d new_anchor ((head ∷ blocks) ++ free)
        × (new_anchor.state ≡ AnchorState.partial)
        × (h'.partial ≡ partial_after c d old.state col h.partial)
        × (h'.pagemap ≡ h.pagemap)
        × ((h'.descriptors d).max_count ≡ (h.descriptors d).max_count)
  unfolding flush_blocks
  flush_run sys c d i head blocks free h old {col} f once apart loaded inside index at small fits
        most held =
      let desc = h.descriptors d in
      let r = gather desc head blocks h.memory in
      let g = gather_lem desc head blocks h.memory once in
      let all : r.others ≡ [] = gather_all desc head blocks h.memory inside in
      let same : blocks ≡ g.ran = g.split ∙ ap (◌++◌ g.ran) all ∙ append-nil g.ran in
      let new_anchor = anchor_after desc old i (suc r.more) in
      let hm : Heap S = record h { memory = r.memory } in
      let linked =
        link_at (length blocks) d i r.tail (suc r.more) hm old (Free-read f)
          (Free-update new_anchor f) in
      let h1 = linked_heap d i r.tail old new_anchor hm in
      let is_partial : new_anchor.state ≡ AnchorState.partial =
        if-ne _ _ AnchorState.empty (omega (arith, f.count_is, g.more_is, ap length same)) in
      let settled : settle sys c d old new_anchor h1
          ≡ some (record h1 { partial = partial_after c d old.state col h.partial }) =
        ap (λ s. settle sys c d old (record new_anchor { state = s }) h1) is_partial
        ∙ settle_at sys c d old.state old.avail old.count i new_anchor.count h1 held in
      let after = partial_after c d old.state col h.partial in
      let k =
        linked-Free d i head r g f
          (λ a e. apart a (subst (λ l. 0 < count a (head ∷ l)) (sym same) e)) at small
          (omega (arith, ap length same)) in
      (
        record h1 { partial = after },
        new_anchor,
        rw (loaded, index, linked, settled, all, flush_blocks) refl,
        subst (λ l. Free (record h1 { partial = after }) d new_anchor ((head ∷ l) ++ free))
            (sym same)
            (record {
              word = k.word;
              count_is = k.count_is;
              avail_fits = k.avail_fits;
              count_fits = k.count_fits;
              linked = k.linked;
            }),
        is_partial,
        refl,
        refl,
        ap (λ t. t.max_count)
            (write-same h.descriptors d d (record desc { anchor = Anchor.to_u64 new_anchor }) refl),
      )

  -- What `flush_run` asks of the blocks of one superblock that are flushed.
  pub record Flushable (d i head : ℕ) (blocks free : List ℕ) (h : Heap S) (old : Anchor)
      : Type 0 where
    pub has : Free h d old free
    pub once : Distinct (head ∷ blocks)
    pub apart : (a : ℕ) → 0 < count a (head ∷ blocks) → count a free ≡ 0
    pub loaded : load_descriptor h head ≡ some d
    pub inside :
        (j b : ℕ) → get_elem? blocks j ≡ some b → Descriptor.contains (h.descriptors d) b ≡ true
    pub index : Descriptor.calc_index (h.descriptors d) head ≡ some i
    pub at : block_at (h.descriptors d) i ≡ head
    pub small : i < 2 ^ 31
    pub fits : length (head ∷ blocks) + length free < (h.descriptors d).max_count
    pub most : (h.descriptors d).max_count ≤ stack_size

  -- Where the cache holds, of a class, some blocks of one superblock, not all of them with its free
  -- ones: a flush of the class succeeds, it leaves none of the class in the cache and the other
  -- classes as they were, and the superblock has the blocks in front of its free ones; it is put into
  -- the collection of the partly used ones if it had no free block that was known.
  pub flush_cache_lem :
      (sys : System S) (c d i head : ℕ) (blocks free : List ℕ) {held : ℕ → List ℕ}
      {stacks : List Stack} (h : Heap S) (old : Anchor) {col : List ℕ}
      → Flushable d i head blocks free h old
      → Caches held stacks
      → c < size_class_count
      → held c ≡ head ∷ blocks
      → get_elem? h.partial c ≡ some col
      → (stacks' : List Stack) × (h' : Heap S) × (new_anchor : Anchor) × (flush_cache sys c stacks h
          ≡ some (stacks', h'))
        × Caches (change held c []) stacks'
        × Free h' d new_anchor ((head ∷ blocks) ++ free)
        × (new_anchor.state ≡ AnchorState.partial)
        × (h'.partial ≡ partial_after c d old.state col h.partial)
        × (h'.pagemap ≡ h.pagemap)
        × ((h'.descriptors d).max_count ≡ (h.descriptors d).max_count)
  unfolding flush_cache
  flush_cache_lem sys c d i head blocks free h old f k hc has partial =
      let (stacks', e, k') = flush_refines c k hc in
      let (h', new_anchor, e2, free', is_partial, after, same, count_same) =
        flush_run sys c d i head blocks free h old f.has f.once f.apart f.loaded f.inside f.index
          f.at f.small f.fits (omega (arith, f.most)) partial in
      (
        stacks',
        h',
        new_anchor,
        rw (e, has, e2) refl,
        k',
        free',
        is_partial,
        after,
        same,
        count_same,
      )
