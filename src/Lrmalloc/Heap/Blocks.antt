-- ===== src/Lrmalloc/Heap/Blocks.antt =====
-- What the loops of `fill_cache` in src/allocator/lrmalloc/heap.rs put into the cache, block by block.
use nolock.Prelude.{
  ℕ, zero, suc, ◌+◌, ◌*◌, ◌<◌, ◌≤◌, ◌≡◌, refl, sym, ap, ◌∙◌, subst, some, List, [], ◌∷◌, length,
  if-eq, if-ne, arith, ℕ_discrete, ok,
}
use nolock.Lrmalloc.Cache
use nolock.Lrmalloc.Cache.{Caches, change, add_block_refines, stack_size, size_class_count}
use nolock.Lrmalloc.Descriptor.{Descriptor}
use nolock.Lrmalloc.Stack
use nolock.Lrmalloc.Stack.{Stack}
use nolock.Lrmalloc.Heap.Fill.{take_blocks, add_blocks}
use nolock.Lrmalloc.Heap.Chain.{Linked, next}

pub Caches-same :
    {held held' : ℕ → List ℕ} {stacks : List Stack}
    → ((c : ℕ) → held c ≡ held' c)
    → Caches held stacks
    → Caches held' stacks
Caches-same same k = record {
  size = k.size;
  each = λ c s e. subst (λ l. Stack.Holds stack_size l s) (same c) (k.each c s e);
}

pub change-twice :
    (held : ℕ → List ℕ) (c : ℕ) (l m : List ℕ) (c' : ℕ)
    → change (change held c l) c m c' ≡ change held c m c'
change-twice held c l m c' = elim (ℕ_discrete c c') [
  | yes e ↦ if-eq c c' _ e ∙ sym (if-eq c c' _ e)
  | no ne ↦ if-ne c c' _ ne ∙ if-ne c c' _ ne ∙ sym (if-ne c c' _ ne)
]

pub change-none :
    (held : ℕ → List ℕ) (c : ℕ) (l : List ℕ) (c' : ℕ) → l ≡ held c → held c' ≡ change held c l c'
change-none held c l c' e = elim (ℕ_discrete c c') [
  | yes same ↦ sym (if-eq c c' (held c') same ∙ e ∙ ap held same)
  | no ne ↦ sym (if-ne c c' l ne)
]

pub push_room : (n : ℕ) (l : List ℕ) (b : ℕ) → length l < n → Stack.push n l b ≡ (ok tt, b ∷ l)
push_room n l b lt = ground arith

-- A class with room takes a block.
pub add_room :
    {held : ℕ → List ℕ} {stacks : List Stack} (c b : ℕ)
    → Caches held stacks
    → c < size_class_count
    → length (held c) < stack_size
    → (stacks' : List Stack) × (Cache.add_block stacks c b ≡ some (ok tt, stacks'))
      × Caches (change held c (b ∷ held c)) stacks'
add_room {held} c b k hc room =
    let (s', e, k') = add_block_refines c k hc b in
    let r = push_room stack_size (held c) b room in
    (s', e ∙ ap (λ p. some (p.0, s')) r, subst (λ p. Caches (change held c p.1) s') r k')

-- A list put on another one, its first item first.
abbrev pub onto : List ℕ → List ℕ → List ℕ
onto [] l = l
onto (b ∷ blocks) l = onto blocks (b ∷ l)

pub take_blocks_lem :
    (c : ℕ) (blocks : List ℕ) {held : ℕ → List ℕ} {stacks : List Stack} {memory : ℕ → ℕ} (p : ℕ)
    → Caches held stacks
    → c < size_class_count
    → length (held c) + length blocks ≤ stack_size
    → Linked memory p blocks
    → (stacks' : List Stack) × (take_blocks (length blocks) c p memory stacks ≡ some stacks')
      × Caches (change held c (onto blocks (held c))) stacks'
unfolding take_blocks
take_blocks_lem c [] {held} {stacks} p k hc room l =
    (stacks, refl, Caches-same (λ c'. change-none held c _ c' refl) k)
take_blocks_lem c (b ∷ blocks) {held} {stacks} {memory} p k hc room (next same l) =
    let (s1, e, k1) = add_room c b k hc (omega arith) in
    let now : change held c (b ∷ held c) c ≡ b ∷ held c = if-eq c c (held c) refl in
    let (s2, f, k2) = take_blocks_lem c blocks (memory b) k1 hc (omega (arith, ap length now)) l in
    (
      s2,
      rw
          (
            ap (Cache.add_block stacks c) same ∙ e,
            ap (λ q. take_blocks (length blocks) c (memory q) memory s1) same ∙ f,
          )
          refl,
      subst (λ m. Caches (change held c (onto blocks m)) s2) now
          (Caches-same (change-twice held c _ _) k2),
    )

-- The blocks of a superblock, the last one first.
unfoldable pub block_ptrs : Descriptor → ℕ → List ℕ
block_ptrs desc zero = []
block_ptrs desc (suc i) = (desc.super_block + desc.block_size * i) ∷ block_ptrs desc i

length-block_ptrs : (desc : Descriptor) (i : ℕ) → length (block_ptrs desc i) ≡ i
unfolding block_ptrs
length-block_ptrs desc zero = refl
length-block_ptrs desc (suc i) = ap suc (length-block_ptrs desc i)

pub add_blocks_lem :
    (c n i : ℕ) (desc : Descriptor) {held : ℕ → List ℕ} {stacks : List Stack}
    → Caches held stacks
    → c < size_class_count
    → held c ≡ block_ptrs desc i
    → i + n ≤ stack_size
    → (stacks' : List Stack) × (add_blocks n i desc c stacks ≡ some stacks')
      × Caches (change held c (block_ptrs desc (i + n))) stacks'
unfolding add_blocks block_ptrs
add_blocks_lem c zero i desc {held} {stacks} k hc has room =
    let e : i ≡ i + 0 = omega arith in
    (
      stacks,
      refl,
      Caches-same (λ c'. change-none held c _ c' (ap (block_ptrs desc) (sym e) ∙ sym has)) k,
    )
add_blocks_lem c (suc n) i desc {held} {stacks} k hc has room =
    let (s1, e, k1) =
      add_room c (desc.super_block + desc.block_size * i) k hc
        (omega (arith, ap length has, length-block_ptrs desc i)) in
    let now : change held c _ c ≡ block_ptrs desc (suc i) =
      if-eq c c (held c) refl ∙ ap (◌∷◌ (desc.super_block + desc.block_size * i)) has in
    let (s2, f, k2) = add_blocks_lem c n (suc i) desc k1 hc now (omega arith) in
    let same : suc i + n ≡ i + suc n = omega arith in
    (
      s2,
      rw (e, f) refl,
      subst (λ m. Caches (change held c (block_ptrs desc m)) s2) same
          (Caches-same (change-twice held c _ _) k2),
    )
