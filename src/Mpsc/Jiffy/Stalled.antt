-- ===== src/Mpsc/Jiffy/Stalled.antt =====
-- A receive of src/queues/mpsc/jiffy.rs while a sender has reserved the head's place and not stored its item.
use nolock.Prelude.{
  ℕ, zero, suc, ◌<◌, ◌≤◌, ◌≡◌, refl, true, false, none, some, length, get_elem?, ◌>>=◌,
}
use nolock.Mpsc.Node
use nolock.Mpsc.Node.{NodeState, handled, get_state}
use nolock.Mpsc.BufferList.{BufferList, deref, state_at, is_set_state, scan}
use nolock.Mpsc.BufferList.Scanning.{scan_lem}
use nolock.Mpsc.Jiffy.{Channel, current, current_or_next, skip_handled, dequeue_behind, try_dequeue}

module _ (buffer_size : ℕ) where
  module _ {ℓ} {A : Type ℓ} where
    dequeue_behind_fails :
        (fuel : ℕ) (s : Channel A) {b : BufferList A}
        → get_elem? s.memory s.head_of_queue ≡ some (some b)
        → scan buffer_size fuel s.memory s.head_of_queue b.head ≡ none
        → dequeue_behind buffer_size fuel s ≡ none
    unfolding dequeue_behind
    dequeue_behind_fails fuel s at e = rw (dequeue_behind, at, ◌>>=◌, e) refl

    -- The next buffer may hold nothing any more while later ones do: where no entry of the head's buffer is set, the one
    -- at its head is empty, and all entries of the next buffer are handled, a receive never returns an answer, however
    -- long its loops may run.
    pub try_dequeue_stalled :
        (fuel : ℕ) (s : Channel A) {b c : BufferList A} {q : ℕ}
        → get_elem? s.memory s.head_of_queue ≡ some (some b)
        → get_elem? b.buffer b.head ≡ some (record { content = none; is_set = 0 })
        → b.head < buffer_size
        → ((j : ℕ)
            → b.head ≤ j
            → j < buffer_size
            → (n : NodeState) × (state_at s.memory s.head_of_queue j ≡ some n)
              × (is_set_state n ≡ false))
        → b.next ≡ some q
        → get_elem? s.memory q ≡ some (some c)
        → length c.buffer ≡ buffer_size
        → c.head ≤ buffer_size
        → ((j : ℕ) → c.head ≤ j → j < buffer_size → state_at s.memory q j ≡ some handled)
        → try_dequeue buffer_size fuel s ≡ none
    unfolding try_dequeue current_or_next current skip_handled get_state Node.from_u8 scan
    try_dequeue_stalled zero s at entry lt unset next there size head_in done =
        rw (try_dequeue, at, ◌>>=◌, entry) refl
    try_dequeue_stalled (suc fuel) s {b} {c} {q} at entry lt unset next there size head_in done =
        let here : deref s.memory s.head_of_queue ≡ some b = rw at refl in
        let behind : deref s.memory q ≡ some c = rw there refl in
        let scanned =
          scan_lem buffer_size s.memory s.head_of_queue (suc fuel) b.head here next behind size
            head_in unset done lt true in
        rw (try_dequeue, at, ◌>>=◌, entry) (dequeue_behind_fails (suc fuel) s at scanned)
