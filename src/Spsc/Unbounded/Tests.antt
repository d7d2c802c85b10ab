-- ===== src/Spsc/Unbounded/Tests.antt =====
-- Runs of the chain of buffers of src/queues/spsc/unbounded.rs at concrete inputs.
use nolock.Prelude.{
  ℕ, zero, suc, ◌≡◌, refl, true, false, Bool, Option, none, some, List, [], ◌∷◌, ◌++◌, ok, err,
  ◌>>=◌,
}
use nolock.Queues.{EnqueueError}
use nolock.Spsc.Bounded
use nolock.Spsc.Nodes
use nolock.Spsc.Unbounded.{
  Queue, queue, enqueue, drop_sender, drop_receiver, receiver_is_closed, leave, next_w,
  enqueue_next,
}
use nolock.Spsc.Unbounded.Repr.{Contains}
use nolock.Spsc.Unbounded.Sending.{queue-Contains}
use nolock.Spsc.Unbounded.Refine.{enqueue_refines_open}
use nolock.Spsc.Unbounded.Closing.{receiver_is_closed_lem, drop_receiver_lem}
use nolock.Spsc.Unbounded.Run.{Op, send, receive, run_leave, replies, run-leave, run}
use nolock.Spsc.Unbounded.Waiting
use nolock.Spsc.Unbounded.Waiting.{dequeue_lem_chain}

-- More items than the first buffer has room for.
abbrev sends : ℕ → List (Op ℕ)
sends zero = []
sends (suc k) = send k ∷ sends k

abbrev receives : ℕ → List (Op ℕ)
receives zero = []
receives (suc k) = receive ∷ receives k

run-leave_example :
    run_leave (sends 66) (send 7 ∷ receives 67) queue
    ≡ some (
        (replies false (sends 66) []).0
        ++ (replies true (send 7 ∷ receives 67) (replies false (sends 66) []).1).0)
run-leave_example = run-leave (sends 66) (send 7 ∷ receives 67)

abbrev one_sent : (q : Queue ℕ) × (enqueue queue 5 ≡ some (ok tt, q)) × Contains 64 false (5 ∷ []) q
one_sent = enqueue_refines_open 5 queue-Contains

receiver_is_closed_lem_example :
    (b : Bool) × (receiver_is_closed one_sent.0 ≡ some b)
    × (b ≡ true → false ≡ true)
    × (◌≡◌ {A = List ℕ} (5 ∷ []) [] → false ≡ true → b ≡ true)
receiver_is_closed_lem_example = receiver_is_closed_lem one_sent.2

drop_receiver_lem_example :
    (q : Queue ℕ) × (drop_receiver 9 one_sent.0 ≡ some q)
    × ((x : ℕ) → enqueue q x ≡ some (err (x, EnqueueError.closed), q))
drop_receiver_lem_example = drop_receiver_lem 9 one_sent.2

dequeue_lem_chain_example :
    ((q : Queue ℕ) × (Waiting.dequeue 2 (Waiting.sender_sends 8) queue ≡ some (some 8, q)))
    × ((q : Queue ℕ) × (Waiting.dequeue 2 Waiting.sender_leaves queue ≡ some (none, q)))
dequeue_lem_chain_example = dequeue_lem_chain false [] 0 8 queue-Contains

-- The sender is gone, and the receiver still says that the queue is open, since a second buffer waits.
abbrev closed_after : ℕ → Option Bool
closed_after k = do (answers, q) ← run (sends k) queue; q' ← drop_sender 0 q; receiver_is_closed q'

one_buffer : closed_after 2 ≡ some true
unfolding run queue enqueue drop_sender receiver_is_closed leave next_w enqueue_next Bounded.queue
    Bounded.try_enqueue Bounded.is_closed Bounded.close Bounded.next_element Nodes.new Nodes.enqueue
    Nodes.create_new_node Nodes.has_next Nodes.drop_sender Bounded.try_dequeue
one_buffer = refl

two_buffers : closed_after 65 ≡ some false
unfolding run queue enqueue drop_sender receiver_is_closed leave next_w enqueue_next Bounded.queue
    Bounded.try_enqueue Bounded.is_closed Bounded.close Bounded.next_element Nodes.new Nodes.enqueue
    Nodes.create_new_node Nodes.has_next Nodes.drop_sender Bounded.try_dequeue
two_buffers = refl
