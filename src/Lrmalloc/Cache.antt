-- ===== src/Lrmalloc/Cache.antt =====
-- src/allocator/lrmalloc/cache.rs: one stack of block pointers for each size class. `none` is the
-- panic on a class that has no stack.
use nolock.Prelude.{
  ℕ, suc, ◌<◌, ◌≡◌, refl, ap, sym, ◌∙◌, Option, some, List, [], ◌>>=◌, Result, if◌then◌else◌, ◌==◌,
  if-eq, if-ne, get_elem?, set, replicate, length, length-replicate, length-set,
  get_elem?-replicate, get_elem?_of_lt, get_elem?-set_self, get_elem?-set_ne, lt_of_get_elem?,
  ℕ_discrete, some-injective, subst, arith,
}
use nolock.Lrmalloc.Stack
use nolock.Lrmalloc.Stack.{Stack, try_push_refines, try_pop_refines, flush_lem}

abbrev pub stack_size : ℕ
stack_size = 32

abbrev pub size_class_count : ℕ
size_class_count = 17

-- `Cache { stacks }`
unfoldable pub new : List Stack
new = replicate size_class_count (Stack.new stack_size)

unfoldable pub try_alloc : List Stack → ℕ → Option (Option ℕ × List Stack)
try_alloc stacks size_class = do
  stack ← get_elem? stacks size_class
  (ptr, stack') ← Stack.try_pop stack
  some (ptr, set stacks size_class stack')

unfoldable pub add_block : List Stack → ℕ → ℕ → Option (Result (Unit {0}) ℕ × List Stack)
add_block stacks size_class block = do
  stack ← get_elem? stacks size_class
  (answer, stack') ← Stack.try_push stack_size stack block
  some (answer, set stacks size_class stack')

-- `flush`, and its iterator taken to the end.
unfoldable pub flush : List Stack → ℕ → Option (List ℕ × List Stack)
flush stacks size_class = do
  stack ← get_elem? stacks size_class
  (ptrs, stack') ← Stack.flush (suc stack_size) stack
  some (ptrs, set stacks size_class stack')

-- The cache holds the pointers `held c` for each class `c`, the last one added first.
pub record Caches (held : ℕ → List ℕ) (stacks : List Stack) : Type 0 where
  pub size : length stacks ≡ size_class_count
  pub each : (c : ℕ) (s : Stack) → get_elem? stacks c ≡ some s → Stack.Holds stack_size (held c) s

-- What is held when one class changes.
abbrev pub change : (ℕ → List ℕ) → ℕ → List ℕ → ℕ → List ℕ
change held c l c' = if c == c' then l else held c'

pub new-Caches : Caches (λ c. []) new
unfolding new
new-Caches = record {
  size = length-replicate size_class_count (Stack.new stack_size);
  each = λ c s e.
      let same : Stack.new stack_size ≡ s = some-injective _ _ (
        sym (
          get_elem?-replicate size_class_count c (Stack.new stack_size) (
            omega (
              arith,
              lt_of_get_elem? new c s e,
              length-replicate size_class_count (Stack.new stack_size),
            )))
        ∙ e) in
      subst (Stack.Holds stack_size []) same (Stack.new-Holds stack_size);
}

-- One class is written, and no other changes.
set-Caches :
    {held : ℕ → List ℕ} {stacks : List Stack} (c : ℕ) (l : List ℕ) (s : Stack)
    → Caches held stacks
    → c < size_class_count
    → Stack.Holds stack_size l s
    → Caches (change held c l) (set stacks c s)
set-Caches {held} {stacks} c l s h hc hs = record {
  size = length-set stacks c s ∙ h.size;
  each = λ c' t e. elim (ℕ_discrete c c') [
    | yes same ↦
        let at : s ≡ t = some-injective _ _ (
          sym (get_elem?-set_self stacks c s (omega (arith, h.size)))
          ∙ ap (get_elem? (set stacks c s)) same
          ∙ e) in
        subst (λ m. Stack.Holds stack_size m t) (sym (if-eq c c' (held c') same))
          (subst (Stack.Holds stack_size l) at hs)
    | no ne ↦
        subst (λ m. Stack.Holds stack_size m t) (sym (if-ne c c' l ne))
          (h.each c' t (sym (get_elem?-set_ne stacks c c' s ne) ∙ e))
  ];
}

module _ {held : ℕ → List ℕ} {stacks : List Stack} (c : ℕ) (h : Caches held stacks)
    (hc : c < size_class_count) where
  class_stack : (s : Stack) × (get_elem? stacks c ≡ some s)
  class_stack = get_elem?_of_lt stacks c (omega (arith, h.size))

  -- For one of the 17 classes, `try_alloc` gives the block of the class that was added last.
  pub try_alloc_refines :
      (stacks' : List Stack) × (try_alloc stacks c ≡ some ((Stack.pop (held c)).0, stacks'))
      × Caches (change held c (Stack.pop (held c)).1) stacks'
  unfolding try_alloc
  try_alloc_refines =
      let (s, e) = class_stack in
      let (s', f, hs) = try_pop_refines (held c) (h.each c s e) in
      (set stacks c s', rw (e, f) refl, set-Caches c _ s' h hc hs)

  -- For one of the 17 classes, `add_block` keeps the block, unless the class has `stack_size` of them.
  pub add_block_refines :
      (block : ℕ)
      → (stacks' : List Stack) × (add_block stacks c block
          ≡ some ((Stack.push stack_size (held c) block).0, stacks'))
        × Caches (change held c (Stack.push stack_size (held c) block).1) stacks'
  unfolding add_block
  add_block_refines block =
      let (s, e) = class_stack in
      let (s', f, hs) = try_push_refines block (h.each c s e) in
      (set stacks c s', rw (e, f) refl, set-Caches c _ s' h hc hs)

  -- For one of the 17 classes, `flush` gives every block, the last one added first, and leaves it empty; the other
  -- classes keep theirs.
  pub flush_refines :
      (stacks' : List Stack) × (flush stacks c ≡ some (held c, stacks'))
      × Caches (change held c []) stacks'
  unfolding flush
  flush_refines =
      let (s, e) = class_stack in
      let hs = h.each c s e in
      let (s', f, hs') = flush_lem (suc stack_size) (held c) hs (omega (arith, hs.fits)) in
      (set stacks c s', rw (e, f) refl, set-Caches c _ s' h hc hs')
