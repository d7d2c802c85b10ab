-- ===== src/Mpsc/BufferList/Scanning.antt =====
-- What `BufferList::scan` of src/queues/mpsc/jiffy/bufferlist.rs finds.
use nolock.Prelude.{
  ℕ, zero, suc, ◌+◌, ◌<◌, ◌≤◌, ◌≡◌, refl, Bool, true, false, none, some, length, arith,
  get_elem?-none, dec_lt, leb, ◌&&◌, not, ◌>>=◌,
}
use nolock.Mpsc.Node.{NodeState, empty, handled}
use nolock.Mpsc.BufferList.{
  BufferList, Memory, deref, state_at, is_set_state, is_handled_state, scan_next, scan_loop,
}

module _ (buffer_size : ℕ) where
  module _ {ℓ} {A : Type ℓ} (m : Memory A) where
    -- Inside a buffer, and at the end of a handled one that is not the first, the scan stays where it is.
    pub scan_stays :
        (p i : ℕ) (moved all_handled : Bool)
        → (leb buffer_size i && not (all_handled && moved)) ≡ false
        → scan_next buffer_size m p i moved all_handled ≡ some (some (p, i, moved, all_handled))
    unfolding scan_next
    scan_stays p i moved all_handled e = rw e refl

    scan_moves :
        {b c : BufferList A} {q : ℕ} (p i : ℕ) (all_handled : Bool)
        → deref m p ≡ some b
        → b.next ≡ some q
        → deref m q ≡ some c
        → buffer_size ≤ i
        → scan_next buffer_size m p i false all_handled ≡ some (some (q, c.head, true, true))
    unfolding scan_next
    scan_moves p i true at next there le =
        let over : leb buffer_size i ≡ true = ground arith in rw (over, at, next, there) refl
    scan_moves p i false at next there le =
        let over : leb buffer_size i ≡ true = ground arith in rw (over, at, next, there) refl

    -- An entry that is not set is passed over.
    pub scan_passes :
        (s : NodeState) (fuel p i : ℕ) (moved all_handled : Bool)
        → state_at m p i ≡ some s
        → is_set_state s ≡ false
        → scan_loop buffer_size (suc fuel) m p i moved all_handled ≡ (
            scan_next buffer_size m p (i + 1) moved (is_handled_state s && all_handled)
            >>= λ following. elim following [
              | none ↦ some (p, none)
              | some (p', head', moved', all') ↦ scan_loop buffer_size fuel m p' head' moved' all'
            ])
    unfolding scan_loop
    scan_passes empty fuel p i moved all_handled at unset = rw (scan_loop, at) refl
    scan_passes NodeState.set fuel p i moved all_handled at unset = cc
    scan_passes handled fuel p i moved all_handled at unset = rw (scan_loop, at) refl

    -- In a buffer that is not the first and all of whose entries are handled, the scan runs over the end.
    scan_over :
        {c : BufferList A} (q : ℕ) (fuel i : ℕ)
        → deref m q ≡ some c
        → length c.buffer ≡ buffer_size
        → ((j : ℕ) → i ≤ j → j < buffer_size → state_at m q j ≡ some handled)
        → i ≤ buffer_size
        → scan_loop buffer_size fuel m q i true true ≡ none
    unfolding scan_loop state_at
    scan_over q zero i there size done le = refl
    scan_over {c} q (suc fuel) i there size done le = elim (dec_lt i buffer_size) [
      | yes lt ↦
          rw
            (
              scan_passes handled fuel q i true true (done i (omega arith) lt) refl,
              scan_stays q (i + 1) true true (ground arith),
            )
            (scan_over q fuel (i + 1) there size (λ j lo hi. done j (omega arith) hi) (omega arith))
      | no ge ↦ rw (scan_loop, there, get_elem?-none c.buffer i (omega arith)) refl
    ]

    -- Where no entry of the first buffer from `i` on is set, and every entry of the next one from its head on is
    -- handled, the scan runs over the end of that one, whatever its fuel.
    pub scan_lem :
        {b c : BufferList A} {q : ℕ} (p fuel i : ℕ)
        → deref m p ≡ some b
        → b.next ≡ some q
        → deref m q ≡ some c
        → length c.buffer ≡ buffer_size
        → c.head ≤ buffer_size
        → ((j : ℕ)
            → i ≤ j
            → j < buffer_size
            → (s : NodeState) × (state_at m p j ≡ some s) × (is_set_state s ≡ false))
        → ((j : ℕ) → c.head ≤ j → j < buffer_size → state_at m q j ≡ some handled)
        → i < buffer_size
        → (all_handled : Bool) → scan_loop buffer_size fuel m p i false all_handled ≡ none
    unfolding scan_loop
    scan_lem p zero i at next there size head_in unset done lt all_handled = refl
    scan_lem {c} {q} p (suc fuel) i at next there size head_in unset done lt all_handled =
        let (s, state, free) = unset i (omega arith) lt in
        rw (scan_passes s fuel p i false all_handled state free)
          (elim (dec_lt (i + 1) buffer_size) [
            | yes more ↦
                rw (scan_stays p (i + 1) false (is_handled_state s && all_handled) (ground arith)) (
                  scan_lem p fuel (i + 1) at next there size head_in
                    (λ j lo hi. unset j (omega arith) hi) done more
                    (is_handled_state s && all_handled))
            | no end ↦
                rw
                  (scan_moves p (i + 1) (is_handled_state s && all_handled) at next there
                    (omega arith))
                  (scan_over q fuel c.head there size done head_in)
          ])
