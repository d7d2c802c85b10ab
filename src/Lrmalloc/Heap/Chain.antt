-- ===== src/Lrmalloc/Heap/Chain.antt =====
-- The free blocks of a superblock in src/allocator/lrmalloc/heap.rs: a chain of links in the blocks
-- themselves, from the block that the anchor names.
use nolock.Prelude.{
  ℕ, ◌+◌, ◌*◌, ◌%◌, ◌^◌, ◌<◌, ◌≡◌, ◌≢◌, sym, ap, ◌∙◌, subst, true, false, some, List, [], ◌∷◌,
  length, if-eq, if-ne, arith, ℕ_discrete,
}
use nolock.Lrmalloc.Anchor
use nolock.Lrmalloc.Anchor.{Anchor, anchor_round_trip}
use nolock.Lrmalloc.Descriptor.{Descriptor}
use nolock.Lrmalloc.Heap.{Heap, write}
use nolock.Lrmalloc.Slots.{count}

-- From `p` on the links lead through these blocks.
pub data Linked (memory : ℕ → ℕ) : ℕ → List ℕ → Type 0 where
  done : {p : ℕ} → Linked memory p []
  next :
      {p b : ℕ} {blocks : List ℕ}
      → p ≡ b
      → Linked memory (memory b) blocks
      → Linked memory p (b ∷ blocks)

-- The address of a block of a superblock.
abbrev pub block_at : Descriptor → ℕ → ℕ
block_at desc i = (desc.super_block + i * desc.block_size) % 2 ^ 64

-- The superblock of the descriptor `d` has the free blocks `blocks`.
pub record Free {S : Type 0} (h : Heap S) (d : ℕ) (anchor : Anchor) (blocks : List ℕ) : Type 0 where
  pub word : (h.descriptors d).anchor ≡ Anchor.to_u64 anchor
  pub count_is : anchor.count ≡ length blocks
  pub avail_fits : anchor.avail < 2 ^ 31
  pub count_fits : length blocks < 2 ^ 31
  pub linked : Linked h.memory (block_at (h.descriptors d) anchor.avail) blocks

pub Free-read :
    {S : Type 0} {h : Heap S} {d : ℕ} {anchor : Anchor} {blocks : List ℕ}
    → Free h d anchor blocks
    → Anchor.from_u64 (h.descriptors d).anchor ≡ some anchor
Free-read {anchor} f =
    ap Anchor.from_u64 f.word
    ∙ anchor_round_trip anchor f.avail_fits (omega (arith, f.count_is, f.count_fits))

-- An update of the anchor that was just read takes place.
pub Free-update :
    {S : Type 0} {h : Heap S} {d : ℕ} {anchor : Anchor} {blocks : List ℕ} (new_anchor : Anchor)
    → Free h d anchor blocks
    → Anchor.update (h.descriptors d).anchor anchor new_anchor ≡ (true, Anchor.to_u64 new_anchor)
unfolding Anchor.update
Free-update {h} {d} {anchor} new_anchor f =
    if-eq (h.descriptors d).anchor (Anchor.to_u64 anchor) (false, (h.descriptors d).anchor) f.word

pub write-same : {A : Type 0} (m : ℕ → A) (a b : ℕ) (v : A) → a ≡ b → write m a v b ≡ v
write-same m a b v e = if-eq a b (m b) e

pub write-other : {A : Type 0} (m : ℕ → A) (a b : ℕ) (v : A) → a ≢ b → write m a v b ≡ m b
write-other m a b v ne = if-ne a b v ne

-- A write outside the chain.
pub Linked-write :
    {memory : ℕ → ℕ} (a v : ℕ) {p : ℕ} (blocks : List ℕ)
    → count a blocks ≡ 0
    → Linked memory p blocks
    → Linked (write memory a v) p blocks
unfolding count
Linked-write a v [] free l = done
Linked-write {memory} a v {p} (b ∷ blocks) free (next e l) = elim (ℕ_discrete b a) [
  | yes same ↦ absurd (omega (arith, sym free ∙ if-eq b a (count a blocks) same))
  | no ne ↦ next e (
      subst (λ q. Linked (write memory a v) q blocks)
        (sym (write-other memory a b v (λ f. ne (sym f))))
        (Linked-write a v blocks (sym (if-ne b a _ ne) ∙ free) l))
]
