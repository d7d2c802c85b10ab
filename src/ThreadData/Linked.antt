-- ===== src/ThreadData/Linked.antt =====
-- src/thread_data/storage/list.rs: the storage as a linked list. A pointer is an index of the memory
-- `nodes`; an operation runs alone, and `none` is a dangling pointer or the end of the fuel of a loop.
pub mod Reading
pub mod Laws
use nolock.Prelude.{
  ℕ, zero, suc, true, false, Option, none, some, List, [], ◌∷◌, ◌++◌, length, get_elem?, set, ◌==◌,
  ◌>>=◌,
}

pub record Entry {ℓ} (T : Type ℓ) : Type ℓ where
  pub id : ℕ
  pub content : T  -- `data`
  pub next : Option ℕ

-- `List { entries }`, with the memory.
pub record Chain {ℓ} (T : Type ℓ) : Type ℓ where
  pub entries : Option ℕ
  pub nodes : List (Entry T)

module _ {ℓ} {T : Type ℓ} where
  abbrev pub new : Chain T
  new = record { entries = none; nodes = [] }

  -- The loop of `get`.
  unfoldable pub get_from : ℕ → List (Entry T) → ℕ → ℕ → Option (Option T)
  get_from zero nodes current id = none
  get_from (suc fuel) nodes current id = do
    entry ← get_elem? nodes current
    elim (entry.id == id) [
      | true ↦ some (some entry.content)
      | false ↦ elim entry.next [ none ↦ some none | some next ↦ get_from fuel nodes next id ]
    ]

  unfoldable pub get : Chain T → ℕ → Option (Option T)
  get s id = elim s.entries [
    | none ↦ some none
    | some head ↦ get_from (length s.nodes) s.nodes head id
  ]

  -- The loop of `insert`, which puts the new entry behind the last one.
  unfoldable pub append_from : ℕ → List (Entry T) → ℕ → ℕ → Option (List (Entry T))
  append_from zero nodes current new_entry = none
  append_from (suc fuel) nodes current new_entry = do
    entry ← get_elem? nodes current
    elim entry.next [
      | none ↦ some (set nodes current (record entry { next = some new_entry }))
      | some next ↦ append_from fuel nodes next new_entry
    ]

  unfoldable pub insert : Chain T → ℕ → T → Option (T × Chain T)
  insert s id x =
      let new_entry = length s.nodes in
      let nodes = s.nodes ++ (record { id = id; content = x; next = none } ∷ []) in
      elim s.entries [
        | none ↦ some (x, record { entries = some new_entry; nodes = nodes })
        | some head ↦ do
          nodes' ← append_from (length nodes) nodes head new_entry
          some (x, record s { nodes = nodes' })
      ]
