-- ===== src/Mpsc/Jiffy/Empty.antt =====
-- What a receive does where src/queues/mpsc/jiffy.rs holds no item.
use nolock.Prelude.{
  ℕ, zero, suc, ◌+◌, ◌-◌, ◌*◌, ◌<◌, ◌≤◌, ◌≡◌, refl, ap, ◌∙◌, Bool, true, false, none, some, [],
  length, get_elem?, arith, dec_lt, err, if◌then◌else◌, leb, ◌>>=◌, get_elem?-none,
}
use nolock.Queues.{DequeueError, empty}
use nolock.Mpsc.Node
use nolock.Mpsc.Node.{NodeState, get_state}
use nolock.Mpsc.BufferList.{BufferList, Memory, state_at, scan_next, scan_loop, scan}
use nolock.Mpsc.BufferList.Scanning.{scan_stays, scan_passes}
use nolock.Mpsc.Jiffy.{Channel, current, current_or_next, skip_handled, dequeue_behind, try_dequeue}
use nolock.Mpsc.Jiffy.Holds.{node_for, Layout, Holds, block-le}

module _ {ℓ} {A : Type ℓ} (size : ℕ) (m : Memory A) where
  -- At the end of a buffer with an entry that is not handled, the scan goes on to the next one.
  scan_end :
      {b : BufferList A} (p i : ℕ) (moved : Bool)
      → get_elem? m p ≡ some (some b)
      → b.next ≡ none
      → size ≤ i
      → scan_next size m p i moved false ≡ some none
  unfolding scan_next
  scan_end p i moved found alone le =
      let over : leb size i ≡ true = ground arith in rw (over, found, ◌>>=◌, alone) refl

  scan_goes_on :
      {b c : BufferList A} (p q i : ℕ) (moved : Bool)
      → get_elem? m p ≡ some (some b)
      → b.next ≡ some q
      → get_elem? m q ≡ some (some c)
      → size ≤ i
      → scan_next size m p i moved false ≡ some (some (q, c.head, true, true))
  unfolding scan_next
  scan_goes_on p q i moved found next there le =
      let over : leb size i ≡ true = ground arith in rw (over, found, ◌>>=◌, next, there) refl

  module _ {c hb : ℕ} (lay : Layout size c hb [] m) (pos : 0 < size) where
    state_empty :
        (p i : ℕ)
        → hb ≤ p
        → p < length m
        → i < size
        → c ≤ p * size + i
        → state_at m p i ≡ some NodeState.empty
    unfolding state_at get_state Node.from_u8
    state_empty p i from inside lt le =
        let (b, found, h) = lay.buffers p from inside in
        let entry =
          h.nodes i lt le
          ∙ ap (λ o. some (node_for o))
              (get_elem?-none {A = A} [] (p * size + i - c) (omega arith)) in
        rw (state_at, found, ◌>>=◌, entry) refl

    -- Behind the first free place the scan finds nothing, in as many rounds as there are places.
    scan_nothing :
        (fuel p i : ℕ) (moved all_handled : Bool)
        → hb ≤ p
        → p < length m
        → i < size
        → c ≤ p * size + i
        → length m * size < p * size + i + fuel
        → (q : ℕ) × (scan_loop size fuel m p i moved all_handled ≡ some (q, none))
    unfolding scan_loop
    scan_nothing zero p i moved all_handled from inside lt le enough =
        absurd (omega (arith, block-le p (length m) size inside, enough))
    scan_nothing (suc fuel) p i moved all_handled from inside lt le enough =
        let (b, found, h) = lay.buffers p from inside in
        let passes =
          scan_passes size m NodeState.empty fuel p i moved all_handled
            (state_empty p i from inside lt le) refl in
        elim (dec_lt (i + 1) size) [
          | yes more ↦
              let (q, e) =
                scan_nothing fuel p (i + 1) moved false from inside more (omega arith)
                  (omega arith) in
              (q, rw (passes, scan_stays size m p (i + 1) moved false (ground arith)) e)
          | no end ↦ elim (dec_lt (suc p) (length m)) [
            | no last ↦ (
              p,
              rw (passes, scan_end p (i + 1) moved found (h.last (omega arith)) (omega arith)) refl,
            )
            | yes further ↦
                let (b', found', h') = lay.buffers (suc p) (omega arith) further in
                let start = h'.head_later (omega arith) in
                let (q, e) =
                  scan_nothing fuel (suc p) b'.head true true (omega arith) further
                    (omega (arith, start)) (omega (arith, start)) (omega (arith, start)) in
                (
                  q,
                  rw
                      (
                        passes,
                        scan_goes_on p (suc p) (i + 1) moved found (h.before further) found'
                            (omega arith),
                      )
                      e,
                )
          ]
        ]

module _ {ℓ} {A : Type ℓ} (size : ℕ) where
  looks_on :
      (fuel : ℕ) (s : Channel A) {b : BufferList A}
      → get_elem? s.memory s.head_of_queue ≡ some (some b)
      → get_elem? b.buffer b.head ≡ some (record { content = none; is_set = 0 })
      → try_dequeue size (suc fuel) s ≡ dequeue_behind size (suc fuel) s
  unfolding try_dequeue current_or_next current skip_handled get_state Node.from_u8
  looks_on fuel s found entry = rw (try_dequeue, found, ◌>>=◌, entry) refl

  finds_nothing :
      (fuel : ℕ) (s : Channel A) {b : BufferList A} {q : ℕ}
      → get_elem? s.memory s.head_of_queue ≡ some (some b)
      → scan_loop size fuel s.memory s.head_of_queue b.head false true ≡ some (q, none)
      → dequeue_behind size fuel s
        ≡ some (if s.closed then err DequeueError.closed else err empty, s)
  unfolding dequeue_behind scan
  finds_nothing fuel s found e = rw (dequeue_behind, found, ◌>>=◌, e) (ground (arith, e))

  -- With no item, a receive tells whether the queue is closed, and changes nothing.
  pub try_dequeue_empty :
      {c : ℕ} (fuel : ℕ) (s : Channel A)
      → 0 < size
      → Holds size c s.head_of_queue [] s
      → size * 2 < suc fuel
      → try_dequeue size (suc fuel) s
        ≡ some (if s.closed then err DequeueError.closed else err empty, s)
  try_dequeue_empty fuel s pos h enough =
      let (b, found, hb) = h.layout.buffers s.head_of_queue (omega arith) h.layout.head_in in
      let inside : b.head < size = omega (arith, hb.head_first refl, h.to) in
      let entry : get_elem? b.buffer b.head ≡ some (record { content = none; is_set = 0 }) =
        hb.nodes b.head inside (omega (arith, hb.head_first refl)) in
      let (q, e) =
        scan_nothing size s.memory h.layout pos (suc fuel) s.head_of_queue b.head false true
          (omega arith) h.layout.head_in inside (omega (arith, hb.head_first refl))
          (omega (arith, hb.head_first refl, h.near)) in
      looks_on fuel s found entry ∙ finds_nothing (suc fuel) s found e
