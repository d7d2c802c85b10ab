-- ===== src/Spsc/Node.antt =====
-- src/queues/spsc/bounded/node.rs: one entry of the buffer of a bounded queue.
use nolock.Prelude.{Bool, true, false, Option, none, some}

pub record Node {ℓ} (A : Type ℓ) : Type ℓ where
  pub content : Option A  -- `data`
  pub is_set : Bool

module _ {ℓ} {A : Type ℓ} where
  abbrev pub new : Node A
  new = record { content = none; is_set = false }

  -- `mut_data.replace(data)`, the first half of `Node::store`
  abbrev pub put : Node A → A → Node A
  put n x = record n { content = some x }

  -- `self.is_set.store(b)`
  abbrev pub mark : Node A → Bool → Node A
  mark n b = record n { is_set = b }

  abbrev pub store : Node A → A → Node A
  store n x = mark (put n x) true

  -- `mut_data.take().unwrap()`, the first half of `Node::load`: a panic where nothing is stored
  abbrev pub take : Node A → Option (A × Node A)
  take n = elim n.content [ none ↦ none | some x ↦ some (x, record n { content = none }) ]

  abbrev pub load : Node A → Option (A × Node A)
  load n = elim (take n) [ none ↦ none | some (x, n') ↦ some (x, mark n' false) ]

  -- an entry with an item, as a store leaves it
  abbrev pub filled : A → Node A
  filled x = record { content = some x; is_set = true }
