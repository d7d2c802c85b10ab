-- ===== src/Mpsc/Tests.antt =====
-- Runs of the queue of src/queues/mpsc/jiffy.rs at concrete inputs.
use nolock.Prelude.{
  ℕ, zero, suc, ◌<◌, ◌≤◌, ◌≡◌, refl, true, false, Option, none, some, List, [], ◌∷◌, arith, ok, err,
  ◌>>=◌, Result, ◌+◌, ◌-◌, ◌*◌, ap, get_elem?,
}
use nolock.Queues.{DequeueError}
use nolock.Mpsc.Node
use nolock.Mpsc.Node.{Node, NodeState, handled}
use nolock.Mpsc.BufferList.{
  BufferList, Memory, boxed, is_set_state, scan_next, scan_loop, scan, state_at, allocate_next,
  go_to_next, deallocate_all,
}
use nolock.Mpsc.Jiffy.{
  Channel, queue, reserve, fill, enqueue, try_dequeue, drop_sender, drop_receiver, walk_back,
  walk_on, current, advance, put, move_to_next_buffer, current_or_next, skip_handled, load_at,
  dequeue_behind, dequeue_head, last_from,
}
use nolock.Mpsc.Jiffy.Run.{
  Script, done, send, receive, sender_leaves, run, replies, run-queue_jiffy,
}
use nolock.Mpsc.Jiffy.Holds.{node_for, IsBuffer, Holds}
use nolock.Mpsc.Jiffy.Closing.{Freed, drop-Freed}
use nolock.Mpsc.Jiffy.Stalled.{try_dequeue_stalled}

-- Buffers of three entries: seven sends and eight receives, then the drop of the sender and a receive, and
-- whether all buffers are freed once the receiver is dropped too.
abbrev answers : Option (List (Result ℕ DequeueError) × Memory ℕ)
answers = do
  (_, s) ← enqueue 3 9 (queue 3) 1
  (_, s) ← enqueue 3 9 s 2
  (_, s) ← enqueue 3 9 s 3
  (_, s) ← enqueue 3 9 s 4
  (a, s) ← try_dequeue 3 9 s
  (b, s) ← try_dequeue 3 9 s
  (c, s) ← try_dequeue 3 9 s
  (_, s) ← enqueue 3 9 s 5
  (d, s) ← try_dequeue 3 9 s
  (e, s) ← try_dequeue 3 9 s
  (f, s) ← try_dequeue 3 9 s
  s ← drop_sender s
  (g, s) ← try_dequeue 3 9 s
  s ← drop_receiver s
  some (a ∷ b ∷ c ∷ d ∷ e ∷ f ∷ g ∷ [], s.memory)

abbrev first : Channel ℕ
first = queue 3

-- A sender has reserved the first place and does not go on; the others send five items, and the receiver takes
-- them all.
abbrev stalled : Option (List (Result ℕ DequeueError) × Channel ℕ)
stalled = do
  let (location, s) = reserve first
  (_, s) ← enqueue 3 9 s 2
  (_, s) ← enqueue 3 9 s 3
  (_, s) ← enqueue 3 9 s 4
  (_, s) ← enqueue 3 9 s 5
  (_, s) ← enqueue 3 9 s 6
  (a, s) ← try_dequeue 3 30 s
  (b, s) ← try_dequeue 3 30 s
  (c, s) ← try_dequeue 3 30 s
  (d, s) ← try_dequeue 3 30 s
  (e, s) ← try_dequeue 3 30 s
  some (a ∷ b ∷ c ∷ d ∷ e ∷ [], s)

-- The first place is empty; the other entries of the first buffer and those of the second are handled.
abbrev blocked : Channel ℕ
blocked =
    let done : Node ℕ = record { content = none; is_set = 2 } in
    let free : Node ℕ = record { content = none; is_set = 0 } in
    record {
      memory =
          some (record {
            previous = none;
            next = some 1;
            buffer = free ∷ done ∷ done ∷ [];
            head = 0;
            position_in_queue = 1;
          })
          ∷ some (record {
            previous = some 0;
            next = some 2;
            buffer = done ∷ done ∷ done ∷ [];
            head = 0;
            position_in_queue = 2;
          })
          ∷ some (record {
            previous = some 1;
            next = none;
            buffer = free ∷ free ∷ free ∷ [];
            head = 0;
            position_in_queue = 3;
          })
          ∷ [];
      closed = false;
      tail = 6;
      tail_of_queue = 2;
      head_of_queue = 0;
    }

in_order :
    answers
    ≡ some (
      ok 1 ∷ ok 2 ∷ ok 3 ∷ ok 4 ∷ ok 5 ∷ err DequeueError.empty ∷ err DequeueError.closed ∷ [],
      none ∷ none ∷ [],
    )
unfolding queue boxed reserve walk_back walk_on fill enqueue current advance put move_to_next_buffer
    current_or_next skip_handled load_at dequeue_behind dequeue_head try_dequeue drop_sender
    drop_receiver last_from deallocate_all scan_next scan_loop scan state_at allocate_next
    go_to_next Node.new Node.to_u8 Node.from_u8 Node.get_state Node.store Node.load
in_order = refl

around_the_stalled : stalled ≡ some (ok 2 ∷ ok 3 ∷ ok 4 ∷ ok 5 ∷ ok 6 ∷ [], blocked)
unfolding queue boxed reserve walk_back walk_on fill enqueue current advance put move_to_next_buffer
    current_or_next skip_handled load_at dequeue_behind dequeue_head try_dequeue drop_sender
    drop_receiver last_from deallocate_all scan_next scan_loop scan state_at allocate_next
    go_to_next Node.new Node.to_u8 Node.from_u8 Node.get_state Node.store Node.load
around_the_stalled = refl

-- A run of sends and receives over three buffers, with the drop of the sender in it.
abbrev some_calls : Script ℕ true true
some_calls = send 1 (
    send 2 (
      receive (
        send 3 (
          send 4 (
            receive
              (receive (receive (receive (send 5 (sender_leaves (receive (receive done))))))))))))

run-queue_jiffy_example : run 3 7 some_calls (queue 3) ≡ some (replies some_calls [])
run-queue_jiffy_example = run-queue_jiffy 3 (omega arith) 5 (omega arith) some_calls (omega arith)

unset_there :
    (j : ℕ)
    → 0 ≤ j
    → j < 3
    → (n : NodeState) × (state_at blocked.memory 0 j ≡ some n) × (is_set_state n ≡ false)
unfolding state_at Node.get_state Node.from_u8
unset_there zero le lt = (NodeState.empty, refl, refl)
unset_there (suc zero) le lt = (handled, refl, refl)
unset_there (suc (suc zero)) le lt = (handled, refl, refl)
unset_there (suc (suc (suc j))) le lt = absurd (omega arith)

handled_there : (j : ℕ) → 0 ≤ j → j < 3 → state_at blocked.memory 1 j ≡ some handled
unfolding state_at Node.get_state Node.from_u8
handled_there zero le lt = refl
handled_there (suc zero) le lt = refl
handled_there (suc (suc zero)) le lt = refl
handled_there (suc (suc (suc j))) le lt = absurd (omega arith)

try_dequeue_stalled_example : try_dequeue 3 1000 blocked ≡ none
try_dequeue_stalled_example =
    try_dequeue_stalled 3 1000 blocked refl refl (omega arith) unset_there refl refl refl
      (omega arith) handled_there

-- Three items in two buffers of three, after the receiver has left.
abbrev three_left : List ℕ
three_left = 1 ∷ 2 ∷ 3 ∷ []

abbrev full_buffer : BufferList ℕ
full_buffer = record {
  previous = none;
  next = some 1;
  buffer = node_for (some 1) ∷ node_for (some 2) ∷ node_for (some 3) ∷ [];
  head = 0;
  position_in_queue = 1;
}

abbrev fresh_buffer : BufferList ℕ
fresh_buffer = record {
  previous = some 0;
  next = none;
  buffer = node_for none ∷ node_for none ∷ node_for none ∷ [];
  head = 0;
  position_in_queue = 2;
}

abbrev two_buffers : Channel ℕ
two_buffers = record {
  memory = some full_buffer ∷ some fresh_buffer ∷ [];
  closed = true;
  tail = 3;
  tail_of_queue = 1;
  head_of_queue = 0;
}

full_buffer-IsBuffer : IsBuffer 3 2 0 0 three_left 0 full_buffer
full_buffer-IsBuffer = record {
  position = refl;
  first = λ e. refl;
  behind = λ q e le. absurd (omega arith);
  last = λ e. absurd (omega arith);
  before = λ lt. refl;
  entries = refl;
  head_first = λ e. refl;
  head_later = λ ne. refl;
  nodes = items;
}
  where
    items :
        (j : ℕ)
        → j < 3
        → 0 ≤ 0 * 3 + j
        → get_elem? full_buffer.buffer j ≡ some (node_for (get_elem? three_left (0 * 3 + j - 0)))
    items zero lt le = refl
    items (suc zero) lt le = refl
    items (suc (suc zero)) lt le = refl
    items (suc (suc (suc j))) lt le = absurd (omega arith)

fresh_buffer-IsBuffer : IsBuffer 3 2 0 0 three_left 1 fresh_buffer
fresh_buffer-IsBuffer = record {
  position = refl;
  first = λ e. absurd (omega arith);
  behind = λ q e le. let here : 0 ≡ q = omega arith in ap some here;
  last = λ e. refl;
  before = λ lt. absurd (omega arith);
  entries = refl;
  head_first = λ e. absurd (omega arith);
  head_later = λ ne. refl;
  nodes = items;
}
  where
    items :
        (j : ℕ)
        → j < 3
        → 0 ≤ 1 * 3 + j
        → get_elem? fresh_buffer.buffer j ≡ some (node_for (get_elem? three_left (1 * 3 + j - 0)))
    items zero lt le = refl
    items (suc zero) lt le = refl
    items (suc (suc zero)) lt le = refl
    items (suc (suc (suc j))) lt le = absurd (omega arith)

two_buffers-Holds : Holds 3 0 0 three_left two_buffers
two_buffers-Holds = record {
  tail_at = refl;
  head_at = refl;
  last_at = refl;
  reach = omega arith;
  near = omega arith;
  from = omega arith;
  to = omega arith;
  layout = record { head_in = omega arith; buffers = both };
}
  where
    both :
        (p : ℕ)
        → 0 ≤ p
        → p < 2
        → (b : BufferList ℕ) × (get_elem? two_buffers.memory p ≡ some (some b))
          × IsBuffer 3 2 0 0 three_left p b
    both zero lo hi = (full_buffer, refl, full_buffer-IsBuffer)
    both (suc zero) lo hi = (fresh_buffer, refl, fresh_buffer-IsBuffer)
    both (suc (suc p)) lo hi = absurd (omega arith)

drop-Freed_example :
    (m : Memory ℕ) × (drop_sender two_buffers ≡ some (record two_buffers { memory = m }))
    × (drop_receiver two_buffers ≡ some (record two_buffers { memory = m }))
    × Freed 0 2 m
drop-Freed_example = drop-Freed two_buffers two_buffers-Holds refl
