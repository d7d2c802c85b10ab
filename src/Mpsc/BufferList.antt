-- ===== src/Mpsc/BufferList.antt =====
-- src/queues/mpsc/jiffy/bufferlist.rs: the list of buffers of the queue, in a memory in which a freed
-- buffer is `none`. `none` as an answer is a panic, an access to a freed buffer or behind the end of one, or the
-- end of the fuel of a loop.
pub mod Scanning
use nolock.Prelude.{
  ℕ, zero, suc, ◌+◌, ◌-◌, ◌*◌, Bool, true, false, ◌&&◌, not, Option, none, some, List, [], ◌∷◌,
  ◌++◌, ◌==◌, leb, if◌then◌else◌, get_elem?, set, replicate, length, ◌>>=◌, compare_exchange,
}
use nolock.Mpsc.Node
use nolock.Mpsc.Node.{Node, NodeState, empty, handled, get_state}

-- A null pointer is `none`; `head` is the last entry read by the consumer.
pub record BufferList {ℓ} (A : Type ℓ) : Type ℓ where
  pub previous : Option ℕ
  pub next : Option ℕ
  pub buffer : List (Node A)
  pub head : ℕ
  pub position_in_queue : ℕ

abbrev pub Memory {ℓ} : Type ℓ → Type ℓ
Memory A = List (Option (BufferList A))

-- `NodeState::Set == state` and `NodeState::Handled == state`
abbrev pub is_set_state : NodeState → Bool
is_set_state empty = false
is_set_state NodeState.set = true
is_set_state handled = false

abbrev pub is_handled_state : NodeState → Bool
is_handled_state empty = false
is_handled_state NodeState.set = false
is_handled_state handled = true

module _ {ℓ} {A : Type ℓ} where
  abbrev pub deref : Memory A → ℕ → Option (BufferList A)
  deref m p = do cell ← get_elem? m p; cell

  -- `BufferList::fold`: the next buffer, if there is one, once the buffer is taken out of the list.
  unfoldable pub fold : Memory A → ℕ → Option (Option ℕ × Memory A)
  fold m p = do
    b ← deref m p
    elim b.next [
      | none ↦ some (none, m)
      | some next_ptr ↦ do
        next ← deref m next_ptr
        let m1 = set m next_ptr (some (record next { previous = b.previous }))
        previous_ptr ← b.previous
        previous ← deref m1 previous_ptr
        some (some next_ptr, set m1 previous_ptr (some (record previous { next = some next_ptr })))
    ]

  -- `buffer.get(tmp_head).unwrap().get_state()`
  unfoldable pub state_at : Memory A → ℕ → ℕ → Option NodeState
  state_at m p i = do b ← deref m p; n ← get_elem? b.buffer i; get_state n

  -- `BufferList::deallocate_all`
  unfoldable pub deallocate_all : ℕ → Memory A → Option ℕ → Option (Memory A)
  deallocate_all fuel m none = some m
  deallocate_all zero m (some p) = none
  deallocate_all (suc fuel) m (some p) = do
    b ← deref m p
    deallocate_all fuel (set m p none) b.previous

-- `buffer_size` is `BUFFER_SIZE`.
module _ (buffer_size : ℕ) where
  module _ {ℓ} {A : Type ℓ} where
    unfoldable pub boxed : Option ℕ → ℕ → BufferList A
    boxed previous position_in_queue = record {
      previous = previous;
      next = none;
      buffer = replicate buffer_size Node.new;
      head = 0;
      position_in_queue = position_in_queue;
    }

    -- Where `scan` goes on from an entry that is not set, `tmp_head` being the next one: `some none` is the end
    -- of the list, otherwise the buffer, the entry, and the flags `flag_move_to_new_buffer` and
    -- `flag_buffer_all_handled`.
    unfoldable pub scan_next :
        Memory A → ℕ → ℕ → (moved all_handled : Bool) → Option (Option (ℕ × ℕ × Bool × Bool))
    scan_next m p tmp_head moved all_handled =
        if leb buffer_size tmp_head && not (all_handled && moved)
        then (do
          b ← deref m p
          elim b.next [
            | none ↦ some none
            | some next_ptr ↦ do
              next ← deref m next_ptr
              some (some (next_ptr, next.head, true, true))
          ])
        else some (some (p, tmp_head, moved, all_handled))

    -- The loop of `scan`: the buffer, and the entry that is set, if one was found.
    unfoldable pub scan_loop :
        ℕ → Memory A → ℕ → ℕ → (moved all_handled : Bool) → Option (ℕ × Option ℕ)
    scan_loop zero m p tmp_head moved all_handled = none
    scan_loop (suc fuel) m p tmp_head moved all_handled = do
      state ← state_at m p tmp_head
      elim (is_set_state state) [
        | true ↦ some (p, some tmp_head)
        | false ↦ do
          following ← scan_next m p (tmp_head + 1) moved (is_handled_state state && all_handled)
          elim following [
            | none ↦ some (p, none)
            | some (p', head', moved', all') ↦ scan_loop fuel m p' head' moved' all'
          ]
      ]

    unfoldable pub scan : ℕ → Memory A → ℕ → ℕ → Option (ℕ × Option ℕ)
    scan fuel m p tmp_head = scan_loop fuel m p tmp_head false true

    -- A new buffer behind `self`, whose pointer is the answer, or the one that is already there; and the tail of
    -- the queue.
    unfoldable pub allocate_next : Memory A → ℕ → ℕ → Option (ℕ × Memory A × ℕ)
    allocate_next m self_ptr tail_of_queue = do
      self ← deref m self_ptr
      let next_buffer_ptr = length m
      let m1 = m ++ (some (boxed (some self_ptr) (self.position_in_queue + 1)) ∷ [])
      now ← deref m1 self_ptr
      elim now.next [
        | none ↦ some (
          next_buffer_ptr,
          set m1 self_ptr (some (record now { next = some next_buffer_ptr })),
          (compare_exchange tail_of_queue self_ptr next_buffer_ptr).1,
        )
        | some previous ↦ some (previous, set m1 next_buffer_ptr none, tail_of_queue)
      ]

    unfoldable pub go_to_next : Memory A → ℕ → ℕ → Option (ℕ × Memory A × ℕ)
    go_to_next m self_ptr tail = do
      self ← deref m self_ptr
      elim self.next [ some next ↦ some (next, m, tail) | none ↦ allocate_next m self_ptr tail ]
