-- ===== src/Lrmalloc/Heap/Runs.antt =====
-- The run of blocks that the inner loop of `flush_cache` in src/allocator/lrmalloc/heap.rs links.
use nolock.Prelude.{
  ℕ, suc, ◌+◌, ◌<◌, ◌≤◌, ◌≡◌, ◌≢◌, refl, sym, ap, ◌∙◌, subst, true, some, List, [], ◌∷◌, ◌++◌,
  length, if-eq, arith, Bool-cases, inl, inr, get_elem?,
}
use nolock.Lrmalloc.Descriptor
use nolock.Lrmalloc.Descriptor.{Descriptor}
use nolock.Lrmalloc.Slots.{count}
use nolock.Lrmalloc.Heap.{write}
use nolock.Lrmalloc.Heap.Flush.{Run, gather}
use nolock.Lrmalloc.Heap.Chain.{Linked, next, write-same, write-other, Linked-write}

-- No address is there twice.
abbrev pub Distinct : List ℕ → Type 0
Distinct l = (a : ℕ) → count a l ≤ 1

count-here : (a : ℕ) (l : List ℕ) → count a (a ∷ l) ≡ suc (count a l)
unfolding count
count-here a l = if-eq a a (count a l) refl

count-le : (a b : ℕ) (l : List ℕ) → count a l ≤ count a (b ∷ l)
unfolding count
count-le a b l = ground arith

count-append : (a : ℕ) (l m : List ℕ) → count a (l ++ m) ≡ count a l + count a m
unfolding count
count-append a [] m = omega arith
count-append a (b ∷ l) m = ground (arith, count-append a l m)

out-ne : (a p : ℕ) (l : List ℕ) → count a (p ∷ l) ≡ 0 → p ≢ a
out-ne a p l e same =
    absurd
      (omega (arith, e, subst (λ q. count a (q ∷ l) ≡ suc (count a l)) (sym same) (count-here a l)))

-- What a run is: the blocks `ran` behind `p`, linked one behind the other as soon as the last one has
-- a link.
pub record Gathered (p : ℕ) (blocks : List ℕ) (memory : ℕ → ℕ) (r : Run) : Type 0 where
  pub ran : List ℕ
  pub split : blocks ≡ ran ++ r.others
  pub more_is : r.more ≡ length ran
  pub tail_in : 0 < count r.tail (p ∷ ran)
  pub kept : (a : ℕ) → count a (p ∷ ran) ≡ 0 → r.memory a ≡ memory a
  pub chain :
      (v : ℕ) (rest : List ℕ)
      → ((a : ℕ) → 0 < count a (p ∷ ran) → count a rest ≡ 0)
      → Linked memory v rest
      → Linked (write r.memory r.tail v) p ((p ∷ ran) ++ rest)

stop-Gathered :
    (p : ℕ) (blocks : List ℕ) (memory : ℕ → ℕ)
    → Gathered p blocks memory (record { more = 0; tail = p; others = blocks; memory = memory })
stop-Gathered p blocks memory = record {
  ran = [];
  split = refl;
  more_is = refl;
  tail_in = omega (arith, count-here p []);
  kept = λ a e. refl;
  chain = λ v rest apart l. next refl (
      subst (λ q. Linked (write memory p v) q rest) (sym (write-same memory p p v refl))
        (Linked-write p v rest (apart p (omega (arith, count-here p []))) l));
}

step-Gathered :
    (p b : ℕ) (blocks : List ℕ) (memory : ℕ → ℕ) (r : Run)
    → Distinct (p ∷ b ∷ blocks)
    → Gathered b blocks (write memory p b) r
    → Gathered p (b ∷ blocks) memory (record r { more = suc r.more })
step-Gathered p b blocks memory r once g = record {
  ran = b ∷ g.ran;
  split = ap (◌∷◌ b) g.split;
  more_is = ap suc g.more_is;
  tail_in = omega (arith, count-le r.tail p (b ∷ g.ran), g.tail_in);
  kept = λ a e.
      g.kept a (omega (arith, count-le a p (b ∷ g.ran), e))
      ∙ write-other memory p a b (out-ne a p (b ∷ g.ran) e);
  chain = λ v rest apart l. next refl (
      subst (λ q. Linked (write r.memory r.tail v) q ((b ∷ g.ran) ++ rest))
        (sym (
          write-other r.memory r.tail p v tail_not ∙ g.kept p p_out ∙ write-same memory p p b refl))
        (g.chain v rest (λ a h. apart a (omega (arith, h, count-le a p (b ∷ g.ran))))
          (Linked-write p b rest (apart p (omega (arith, count-here p (b ∷ g.ran)))) l)));
}
  where
    p_out : count p (b ∷ g.ran) ≡ 0
    p_out = omega (
      arith,
      once p,
      count-here p (b ∷ blocks),
      ap (λ l. count p (b ∷ l)) g.split,
      count-append p (b ∷ g.ran) r.others,
    )

    tail_not : r.tail ≢ p
    tail_not e = absurd (omega (arith, p_out, subst (λ q. 0 < count q (b ∷ g.ran)) e g.tail_in))

pub gather_lem :
    (desc : Descriptor) (p : ℕ) (blocks : List ℕ) (memory : ℕ → ℕ)
    → Distinct (p ∷ blocks)
    → Gathered p blocks memory (gather desc p blocks memory)
unfolding gather
gather_lem desc p [] memory once = stop-Gathered p [] memory
gather_lem desc p (b ∷ blocks) memory once = elim (Bool-cases (Descriptor.contains desc b)) [
  | inl e ↦ rw e (
      step-Gathered p b blocks memory _ once (
        gather_lem desc b blocks (write memory p b)
          (λ a. omega (arith, once a, count-le a p (b ∷ blocks)))))
  | inr e ↦ rw e (stop-Gathered p (b ∷ blocks) memory)
]

-- A run takes all blocks of the superblock.
pub gather_all :
    (desc : Descriptor) (p : ℕ) (blocks : List ℕ) (memory : ℕ → ℕ)
    → ((i b : ℕ) → get_elem? blocks i ≡ some b → Descriptor.contains desc b ≡ true)
    → (gather desc p blocks memory).others ≡ []
unfolding gather
gather_all desc p [] memory inside = refl
gather_all desc p (b ∷ blocks) memory inside =
    rw (inside 0 b refl) (gather_all desc b blocks (write memory p b) (λ i c e. inside (suc i) c e))
