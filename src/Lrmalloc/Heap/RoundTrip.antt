-- ===== src/Lrmalloc/Heap/RoundTrip.antt =====
-- A flush and a fill of src/allocator/lrmalloc/heap.rs, one after the other.
use nolock.Prelude.{
  ℕ, suc, ◌<◌, ◌≡◌, refl, sym, ap, ◌∙◌, subst, true, some, List, [], ◌∷◌, ◌++◌, length, arith,
  get_elem?, get_elem?-set_self, lt_of_get_elem?, if-eq, length-append, append-nil, none,
}
use nolock.Lrmalloc.Anchor.{Anchor, AnchorState}
use nolock.Lrmalloc.Cache.{Caches, change, size_class_count}
use nolock.Lrmalloc.Partial
use nolock.Lrmalloc.Stack.{Stack}
use nolock.Lrmalloc.Slots.{get-some}
use nolock.Lrmalloc.Heap.{System, Heap, load_descriptor}
use nolock.Lrmalloc.Heap.Fill.{fill_cache_from_partial}
use nolock.Lrmalloc.Heap.FillLaws.{fill_cache_from_partial_lem}
use nolock.Lrmalloc.Heap.Blocks.{Caches-same, change-twice, onto}
use nolock.Lrmalloc.Heap.Flush.{flush_cache}
use nolock.Lrmalloc.Heap.FlushLaws.{Flushable, flush_cache_lem, partial_after}

module _ {S : Type 0} (sys : System S) where
  -- Where the blocks of a class in the cache are some blocks of one superblock, not all of them, whose anchor says that it is full, and
  -- there is no other superblock of the class in the collection of the partly used ones: a flush of the class and
  -- a fill of it succeed, and the cache has the flushed blocks again, in reverse order, and the other
  -- classes as they were.
  pub flush-fill :
      (fuel c d i head : ℕ) (blocks : List ℕ) {held : ℕ → List ℕ} {stacks : List Stack} (h : Heap S)
      (old : Anchor) {col : List ℕ}
      → Flushable d i head blocks [] h old
      → Caches held stacks
      → c < size_class_count
      → held c ≡ head ∷ blocks
      → get_elem? h.partial c ≡ some col
      → old.state ≡ AnchorState.full
      → (Partial.try_pop col).0 ≡ none
      → (stacks1 : List Stack) × (h1 : Heap S) × (stacks2 : List Stack) × (h2 : Heap S)
        × (flush_cache sys c stacks h ≡ some (stacks1, h1))
        × (fill_cache_from_partial (suc fuel) c stacks1 h1 ≡ some (true, stacks2, h2))
        × Caches (change held c (onto (head ∷ blocks) [])) stacks2
  unfolding load_descriptor
  flush-fill fuel c d i head blocks {held} h old {col} f k hc has partial is_full alone =
      let (stacks1, h1, anchor1, e1, k1, free1, is_partial, after, same, count_same) =
        flush_cache_lem sys c d i head blocks [] h old f k hc has partial in
      let found : get_elem? h1.partial c ≡ some (Partial.push d col) =
        ap (λ p. get_elem? p c) (after ∙ ap (λ s. partial_after c d s col h.partial) is_full)
        ∙ get_elem?-set_self h.partial c _ (lt_of_get_elem? h.partial c col partial) in
      let now : change held c [] c ≡ [] = if-eq c c (held c) refl in
      let nd = (get-some h.descriptors h.pagemap head d f.loaded).0 in
      let popped : Partial.try_pop (Partial.push d col)
          ≡ (some d, (Partial.try_pop (Partial.push d col)).1) =
        ap (λ o. (o, (Partial.try_pop (Partial.push d col)).1))
          (Partial.try_pop-push d col nd alone) in
      let all : ((head ∷ blocks) ++ []) ≡ head ∷ blocks = append-nil (head ∷ blocks) in
      let (stacks2, h2, e2, k2, taken, left) =
        fill_cache_from_partial_lem fuel c d anchor1 k1 hc found popped free1
          (λ e. absurd (clash (sym is_partial ∙ e))) (omega (arith, count_same, f.most))
          (omega (arith, ap length now, length-append (head ∷ blocks) [], f.fits, f.most)) in
      (
        stacks1,
        h1,
        stacks2,
        h2,
        e1,
        e2,
        subst (λ bs. Caches (change held c (onto bs [])) stacks2) all
            (subst (λ l. Caches (change held c (onto ((head ∷ blocks) ++ []) l)) stacks2) now
              (Caches-same (change-twice held c _ _) k2)),
      )
    where
      clash : AnchorState.partial ≡ AnchorState.empty → ⊥
      clash e = cc
