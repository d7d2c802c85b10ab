-- ===== src/Spsc/Tests.antt =====
-- Runs of the queues of src/queues/spsc at concrete inputs.
use nolock.Prelude.{
  ℕ, ◌≤◌, ◌≡◌, refl, true, false, none, some, List, [], ◌∷◌, ◌++◌, length, arith, ok, err, ◌==◌,
}
use nolock.Queues.{EnqueueError, full, DequeueError, empty}
use nolock.Spsc.Bounded.{
  next_element, queue, try_enqueue, try_dequeue, is_closed, close, is_full, is_empty,
}
use nolock.Spsc.Bounded.{Channel}
use nolock.Spsc.Bounded.Waiting
use nolock.Spsc.Bounded.Refine.{Represents, try_enqueue_refines, is_full_lem, queue-Represents}
use nolock.Spsc.Bounded.Run.{Op, send, receive, sent, received, left, run, replies, run_refines}
use nolock.Spsc.Bounded.Threads.{
  Producer, System, call, leave, by_producer, by_consumer, Reach, start, later, produce, consume,
  init,
}
use nolock.Spsc.Bounded.Threads.Safety.{no_fault, first_in_first_out, closed_when_drained}

abbrev script : List (Op ℕ)
script =
    receive
    ∷ send 1
    ∷ send 2
    ∷ send 3
    ∷ receive
    ∷ send 4
    ∷ Op.leave
    ∷ send 5
    ∷ receive
    ∷ receive
    ∷ receive
    ∷ []

script_replies :
    run script (queue 2)
    ≡ some (
        received (err empty)
        ∷ sent (ok tt)
        ∷ sent (ok tt)
        ∷ sent (err (3, full))
        ∷ received (ok 1)
        ∷ sent (ok tt)
        ∷ left
        ∷ sent (err (5, EnqueueError.closed))
        ∷ received (ok 2)
        ∷ received (ok 4)
        ∷ received (err DequeueError.closed)
        ∷ [])
unfolding run try_enqueue try_dequeue queue next_element close
script_replies = refl

run_refines_example :
    run script (queue 2) ≡ some (replies 2 script (record { items = []; closed = false }))
run_refines_example = run_refines 2 script (omega arith) (omega arith)

-- Where nothing fits, the index of `get_unchecked` is outside the buffer.
no_room : try_enqueue {A = ℕ} (queue 0) 7 ≡ none
unfolding try_enqueue queue is_closed
no_room = refl

-- The producer has sent 7 and is about to flag 8; the consumer has taken 7.
half_way :
    (s : System ℕ) × Reach 2 s
    × (s.sent ≡ 7 ∷ [])
    × (s.got ≡ [])
    × (s.producer ≡ Producer.written 8)
unfolding produce consume init queue next_element
half_way =
    let p0 : Reach 2 _ = later start (by_producer (call 7) refl) in
    let p1 : Reach 2 _ = later p0 (by_producer (call 7) refl) in
    let p2 : Reach 2 _ = later p1 (by_producer (call 7) refl) in
    let p3 : Reach 2 _ = later p2 (by_producer (call 7) refl) in
    let p4 : Reach 2 _ = later p3 (by_producer (call 8) refl) in
    let p5 : Reach 2 _ = later p4 (by_producer (call 8) refl) in
    let p6 : Reach 2 _ = later p5 (by_producer (call 8) refl) in
    let c0 : Reach 2 _ = later p6 (by_consumer false refl) in
    let c1 : Reach 2 _ = later c0 (by_consumer false refl) in (_, c1, refl, refl, refl)

no_fault_example :
    ((t : System ℕ) × (produce leave half_way.0.producer half_way.0 ≡ some t))
    × ((t : System ℕ) × (consume true half_way.0.consumer half_way.0 ≡ some t))
no_fault_example = no_fault (omega arith) (omega arith) half_way.1 leave true

first_in_first_out_example : (q : List ℕ) × (half_way.0.sent ≡ half_way.0.got ++ q) × (length q ≤ 2)
first_in_first_out_example = first_in_first_out (omega arith) (omega arith) half_way.1

-- One item goes through a buffer of one entry, the producer leaves, and the consumer sees the end.
drained : (s : System ℕ) × Reach 1 s × (s.sent ≡ 7 ∷ []) × (s.last ≡ some (err DequeueError.closed))
unfolding produce consume init queue next_element
drained =
    let p0 : Reach 1 _ = later start (by_producer (call 7) refl) in
    let p1 : Reach 1 _ = later p0 (by_producer (call 7) refl) in
    let p2 : Reach 1 _ = later p1 (by_producer (call 7) refl) in
    let p3 : Reach 1 _ = later p2 (by_producer (call 7) refl) in
    let c0 : Reach 1 _ = later p3 (by_consumer false refl) in
    let c1 : Reach 1 _ = later c0 (by_consumer false refl) in
    let c2 : Reach 1 _ = later c1 (by_consumer false refl) in
    let c3 : Reach 1 _ = later c2 (by_consumer false refl) in
    let p4 : Reach 1 _ = later c3 (by_producer leave refl) in
    let c4 : Reach 1 _ = later p4 (by_consumer false refl) in
    let c5 : Reach 1 _ = later c4 (by_consumer false refl) in (_, c5, refl, refl)

closed_when_drained_example :
    (drained.0.producer ≡ Producer.gone) × (drained.0.sent ≡ drained.0.got)
closed_when_drained_example = closed_when_drained (omega arith) (omega arith) drained.1 drained.3

is_full_lem_example :
    (is_full (queue {A = ℕ} 2) ≡ some (length {A = ℕ} [] == 2))
    × (is_empty (queue {A = ℕ} 2) ≡ some (length {A = ℕ} [] == 0))
is_full_lem_example = is_full_lem (queue-Represents 2 (omega arith) (omega arith))

-- A full queue of one entry, and an empty one.
one_sent :
    (s : Channel ℕ) × (try_enqueue (queue 1) 7 ≡ some (ok tt, s))
    × Represents 1 (record { items = 7 ∷ []; closed = false }) s
one_sent = try_enqueue_refines (queue-Represents 1 (omega arith) (omega arith)) 7

enqueue_lem_example :
    (s : Channel ℕ) × (Waiting.enqueue 2 Waiting.receiver_takes one_sent.0 8 ≡ some (ok tt, s))
    × Represents 1 (record { items = 8 ∷ []; closed = false }) s
enqueue_lem_example = Waiting.enqueue_lem 0 8 one_sent.2 (omega arith)

dequeue_lem_example :
    (s : Channel ℕ) × (Waiting.dequeue 2 (Waiting.sender_sends 8) (queue 1) ≡ some (some 8, s))
dequeue_lem_example =
    Waiting.dequeue_lem 0 8 (queue-Represents 1 (omega arith) (omega arith)) (omega arith)
