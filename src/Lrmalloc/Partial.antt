-- ===== src/Lrmalloc/Partial.antt =====
-- src/allocator/lrmalloc/heap/stack.rs: the collection of the partly used superblocks of one size class,
-- its nodes in order, an empty one 0. An operation runs alone.
use nolock.Prelude.{
  ℕ, suc, ◌≡◌, ◌≢◌, Option, none, some, List, [], ◌∷◌, ◌&&◌, if◌then◌else◌, ◌==◌, compare_exchange,
  arith, refl,
}
use nolock.Lrmalloc.Slots.{count}

-- The loop of `push`, at the node that holds `current`.
unfoldable pub push_from : ℕ → ℕ → List ℕ → List ℕ
push_from d current [] =
    let (done, cell) = compare_exchange current 0 d in
    if (current == 0) && done then cell ∷ [] else current ∷ d ∷ []
push_from d current (next ∷ nodes) =
    let (done, cell) = compare_exchange current 0 d in
    let rest = push_from d next nodes in
    if (current == 0) && done then cell ∷ next ∷ nodes else current ∷ rest

-- `DescriptorCollection::push`
unfoldable pub push : ℕ → List ℕ → List ℕ
push d [] = d ∷ []
push d (head ∷ nodes) = push_from d head nodes

-- The loop of `try_pop`.
unfoldable pub pop_from : ℕ → List ℕ → Option ℕ × List ℕ
pop_from current [] =
    let (done, cell) = compare_exchange current current 0 in
    if current == 0
    then (none, current ∷ [])
    else if done
    then (some current, cell ∷ [])
    else (none, cell ∷ [])
pop_from current (next ∷ nodes) =
    let (done, cell) = compare_exchange current current 0 in
    let rest = pop_from next nodes in
    if current == 0
    then (rest.0, current ∷ rest.1)
    else if done
    then (some current, cell ∷ next ∷ nodes)
    else (rest.0, cell ∷ rest.1)

-- `DescriptorCollection::try_pop`
unfoldable pub try_pop : List ℕ → Option ℕ × List ℕ
try_pop [] = (none, [])
try_pop (head ∷ nodes) = pop_from head nodes

push_from_lem :
    (d current : ℕ) (nodes : List ℕ) (e : ℕ)
    → d ≢ 0
    → e ≢ 0
    → count e (push_from d current nodes)
      ≡ (if d == e then suc (count e (current ∷ nodes)) else count e (current ∷ nodes))
unfolding push_from count
push_from_lem d current [] e nd ne = ground arith
push_from_lem d current (next ∷ nodes) e nd ne = ground (arith, push_from_lem d next nodes e nd ne)

-- A descriptor that is pushed is there once more, and every other as often as before.
pub push_lem :
    (d : ℕ) (nodes : List ℕ) (e : ℕ)
    → d ≢ 0
    → e ≢ 0
    → count e (push d nodes) ≡ (if d == e then suc (count e nodes) else count e nodes)
unfolding push count
push_lem d [] e nd ne = ground arith
push_lem d (head ∷ nodes) e nd ne = push_from_lem d head nodes e nd ne

pop_from_lem :
    (current : ℕ) (nodes : List ℕ) (e : ℕ)
    → e ≢ 0
    → count e (current ∷ nodes) ≡ (elim (pop_from current nodes).0 [
      | none ↦ 0
      | some d ↦
          if d == e
          then suc (count e (pop_from current nodes).1)
          else count e (pop_from current nodes).1
    ])
unfolding pop_from count
pop_from_lem current [] e ne = ground arith
pop_from_lem current (next ∷ nodes) e ne = ground (arith, pop_from_lem next nodes e ne)

-- A descriptor that is popped is there once less afterwards, every other as often as before, and
-- where none is popped there was none.
pub try_pop_lem :
    (nodes : List ℕ) (e : ℕ)
    → e ≢ 0
    → count e nodes ≡ (elim (try_pop nodes).0 [
      | none ↦ 0
      | some d ↦ if d == e then suc (count e (try_pop nodes).1) else count e (try_pop nodes).1
    ])
unfolding try_pop count
try_pop_lem [] e ne = refl
try_pop_lem (head ∷ nodes) e ne = pop_from_lem head nodes e ne

-- Where none is there, the descriptor that is pushed is the next one that is popped.
pub try_pop-push :
    (d : ℕ) (nodes : List ℕ)
    → d ≢ 0
    → (try_pop nodes).0 ≡ none
    → (try_pop (push d nodes)).0 ≡ some d
unfolding try_pop push pop_from push_from
try_pop-push d [] nd e = ground arith
try_pop-push d (head ∷ []) nd e = ground arith
try_pop-push d (head ∷ next ∷ nodes) nd e = ground arith
