-- ===== src/Spsc/Nodes.antt =====
-- src/queues/spsc/unbounded/d_spsc.rs: a linked queue of one producer and one consumer that hands its
-- empty nodes back through a bounded queue (src/queues/spsc/bounded.rs). A pointer is an index of the
-- memory `nodes`, in which a node that was dropped is `none`. An operation runs alone; `none` is a
-- read of a dropped node, or the panic of `unwrap`.
pub mod Repr
pub mod Sending
pub mod Taking
pub mod Refine
pub mod Run
mod Tests
use nolock.Prelude.{
  ℕ, zero, suc, ◌≡◌, Bool, true, false, Option, none, some, List, [], ◌∷◌, ◌++◌, if◌then◌else◌,
  length, get_elem?, set, ◌>>=◌, Result, ok, err,
}
use nolock.Queues.{DequeueError, empty}
use nolock.Spsc.Bounded
use nolock.Spsc.Bounded.{Channel}
use nolock.Spsc.Node as Entry

pub record Node {ℓ} (A : Type ℓ) : Type ℓ where
  pub item : Option A  -- `data`
  pub previous : Option ℕ
  pub next : Option ℕ

-- `closed` is shared, `tail` is the sender's, `head` the receiver's; `recycled` is the bounded queue
-- of both `node_return` and `node_receiver`.
pub record Queue {ℓ} (A : Type ℓ) : Type ℓ where
  pub closed : Bool
  pub nodes : List (Option (Node A))
  pub tail : ℕ
  pub head : ℕ
  pub recycled : Channel ℕ

module _ {ℓ} {A : Type ℓ} where
  -- `unbounded_basic_queue`
  unfoldable pub new : Queue A
  new = record {
    closed = false;
    nodes = some (record { item = none; previous = none; next = none }) ∷ [];
    tail = 0;
    head = 0;
    recycled = Bounded.queue 64;
  }

  -- `&*ptr`
  abbrev pub load : Queue A → ℕ → Option (Node A)
  load q ptr = do cell ← get_elem? q.nodes ptr; cell

  unfoldable pub create_new_node : Queue A → A → Option ℕ → Option (ℕ × Queue A)
  create_new_node q x previous = do
    let node : Node A = record { item = some x; previous = previous; next = none }
    (got, recycled) ← Bounded.try_dequeue q.recycled
    elim got [
      | ok n ↦ do
        old ← load q n
        some (n, record q { nodes = set q.nodes n (some node); recycled = recycled })
      | err _ ↦
          some
            (length q.nodes, record q { nodes = q.nodes ++ (some node ∷ []); recycled = recycled })
    ]

  unfoldable pub enqueue : Queue A → A → Option (Result (Unit {0}) A × Queue A)
  enqueue q x = if q.closed then some (err x, q) else (do
    (node_ptr, q') ← create_new_node q x (some q.tail)
    cur_tail ← load q' q'.tail
    some (
      ok tt,
      record q' {
        nodes = set q'.nodes q'.tail (some (record cur_tail { next = some node_ptr }));
        tail = node_ptr;
      },
    ))

  unfoldable pub try_dequeue : Queue A → Option (Result A DequeueError × Queue A)
  try_dequeue q = do
    prev_head ← load q q.head
    elim prev_head.next [
      | none ↦ some (err empty, q)
      | some next_ptr ↦ do
        next ← load q next_ptr
        x ← next.item
        let nodes : List (Option (Node A)) =
            set q.nodes next_ptr (some (record next { item = none }))
        (answer, recycled) ← Bounded.try_enqueue q.recycled q.head
        let kept : List (Option (Node A)) = elim answer [
          | ok _ ↦ nodes
          | err _ ↦ set nodes q.head none
        ]
        some (ok x, record q { nodes = kept; head = next_ptr; recycled = recycled })
    ]

  unfoldable pub has_next : Queue A → Option Bool
  has_next q = do
    prev_head ← load q q.head
    some (elim prev_head.next [ none ↦ false | some _ ↦ true ])

  -- The loops of the two drops; `fuel` bounds the number of nodes.
  unfoldable pub free_previous :
      ℕ → List (Option (Node A)) → Option ℕ → Option (List (Option (Node A)))
  free_previous fuel nodes none = some nodes
  free_previous zero nodes (some p) = none
  free_previous (suc fuel) nodes (some p) = do
    cell ← get_elem? nodes p
    current ← cell
    free_previous fuel (set nodes p none) current.previous

  unfoldable pub free_next : ℕ → List (Option (Node A)) → Option ℕ → Option (List (Option (Node A)))
  free_next fuel nodes none = some nodes
  free_next zero nodes (some p) = none
  free_next (suc fuel) nodes (some p) = do
    cell ← get_elem? nodes p
    current ← cell
    free_next fuel (set nodes p none) current.next

  -- The buffer of the recycled nodes is dropped with its last half, and every node in it.
  unfoldable pub free_recycled :
      List (Entry.Node ℕ) → List (Option (Node A)) → Option (List (Option (Node A)))
  free_recycled [] nodes = some nodes
  free_recycled (entry ∷ buffer) nodes = elim entry.content [
    | none ↦ free_recycled buffer nodes
    | some p ↦ do cell ← get_elem? nodes p; _ ← cell; free_recycled buffer (set nodes p none)
  ]

  -- The half that goes last drops the nodes. Then its field is dropped, `node_receiver` or `node_return`.
  unfoldable pub drop_sender : ℕ → Queue A → Option (Queue A)
  drop_sender fuel q =
      if q.closed
      then (do
        nodes ← free_previous fuel q.nodes (some q.tail)
        nodes' ← free_recycled q.recycled.buffer nodes
        some (record q { nodes = nodes'; recycled = Bounded.close q.recycled }))
      else some (record q { closed = true; recycled = Bounded.close q.recycled })

  unfoldable pub drop_receiver : ℕ → Queue A → Option (Queue A)
  drop_receiver fuel q =
      if q.closed
      then (do
        nodes ← free_next fuel q.nodes (some q.head)
        nodes' ← free_recycled q.recycled.buffer nodes
        some (record q { nodes = nodes'; recycled = Bounded.close q.recycled }))
      else some (record q { closed = true; recycled = Bounded.close q.recycled })
