-- ===== src/Spsc/Nodes/Refine.antt =====
-- The operations of src/queues/spsc/unbounded/d_spsc.rs, run one at a time, are those of an unbounded
-- FIFO.
use nolock.Prelude.{
  ℕ, ◌≡◌, refl, ◌∙◌, true, false, none, some, List, [], ◌∷◌, arith, Result, ok, err, subst,
  get_elem?_of_lt, get_elem?-none, some-injective,
}
use nolock.Queues.{DequeueError, empty}
use nolock.Spsc.Nodes.{Queue, try_dequeue, has_next}
use nolock.Spsc.Nodes.Repr.{Holds}
use nolock.Spsc.Bounded.Fifo.{Fifo}
use nolock.Spsc.Nodes.Sending.{Stands}
use nolock.Spsc.Nodes.Taking.{Took, empty_at, took}

module _ {ℓ} {A : Type ℓ} where
  -- What an unbounded FIFO gives, and what it keeps.
  abbrev pub next_item : List A → Result A DequeueError
  next_item [] = err empty
  next_item (x ∷ items) = ok x

  abbrev pub others : List A → List A
  others [] = []
  others (x ∷ items) = items

  receive_from :
      (chain : List ℕ) (spare : Fifo ℕ) (items : List A) {q : Queue A}
      → Holds chain spare items q
      → (q' : Queue A) × (try_dequeue q ≡ some (next_item items, q')) × Stands (others items) q'
  unfolding Took
  receive_from chain spare [] {q} h = (q, empty_at h, (chain, spare, h))
  receive_from [] spare (x ∷ xs) h = absurd (omega (arith, h.one_more))
  receive_from (a ∷ []) spare (x ∷ xs) h = absurd (omega (arith, h.one_more))
  receive_from (a ∷ p ∷ rest) spare (x ∷ xs) {q} h =
      let same : a ≡ q.head = some-injective _ _ h.first in
      let h' : Holds (q.head ∷ p ∷ rest) spare (x ∷ xs) q =
        subst (λ a. Holds (a ∷ p ∷ rest) spare (x ∷ xs) q) same h in
      let (q', e, (spare', k)) = took h' in (q', e, (p ∷ rest, spare', k))

  next_from :
      (chain : List ℕ) {spare : Fifo ℕ} (items : List A) {q : Queue A}
      → Holds chain spare items q
      → has_next q ≡ some (elim items [ [] ↦ false | x ∷ xs ↦ true ])
  unfolding has_next
  next_from chain [] {q} h =
      let at = h.linked 0 q.head h.first in
      let end : at.node.next ≡ none =
        at.next_is ∙ get_elem?-none chain 1 (omega (arith, h.one_more)) in
      rw (at.found, end) refl
  next_from chain (x ∷ xs) {q} h =
      let at = h.linked 0 q.head h.first in
      let (p, more) = get_elem?_of_lt chain 1 (omega (arith, h.one_more)) in
      rw (at.found, at.next_is ∙ more) refl

  -- A receive gives the first item, or says that there is none.
  pub try_dequeue_refines_nodes :
      {items : List A} {q : Queue A}
      → Stands items q
      → (q' : Queue A) × (try_dequeue q ≡ some (next_item items, q')) × Stands (others items) q'
  try_dequeue_refines_nodes {items} (chain, spare, h) = receive_from chain spare items h

  -- `has_next` tells whether there is one.
  pub has_next_lem :
      {items : List A} {q : Queue A}
      → Stands items q
      → has_next q ≡ some (elim items [ [] ↦ false | x ∷ xs ↦ true ])
  has_next_lem {items} (chain, spare, h) = next_from chain items h
