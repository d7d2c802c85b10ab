-- ===== src/Mpmc/Unbounded/Tests.antt =====
-- Runs of the queue of src/queues/mpmc/unbounded.rs at concrete inputs.
use nolock.Prelude.{ℕ, ◌≡◌, refl, true, false, some, List, [], ◌∷◌, length, arith, ok, err, ◌>>=◌}
use nolock.Queues.{DequeueError}
use nolock.Mpmc.Bounded.Run.{Script, done, send, receive, sender_leaves, receiver_leaves}
use nolock.Mpmc.ScqEntry
use nolock.Mpmc.Scq
use nolock.Mpmc.FinalScq
use nolock.Mpmc.Segment
use nolock.Mpmc.Unbounded.{
  Channel, queue, append, enqueue, try_dequeue, drop_receiver, drop_sender, receivers_gone,
  senders_gone, reference, retire, retire_all,
}
use nolock.Mpmc.Unbounded.Receiving.{Retired}
use nolock.Mpmc.Unbounded.Standing.{Stands, queue-Stands, enqueue-Stands, drop_receiver-Stands}
use nolock.Mpmc.Unbounded.Run.{Reply, sent, received, left, replies, run, run-queue}

-- Three buffers of one place, and a receive after the sender has left.
abbrev script : Script ℕ true true
script =
    send 1 (send 2 (send 3 (receive (receive (sender_leaves (receive (receiver_leaves done)))))))

abbrev answers : List (Reply ℕ)
answers =
    sent (ok tt)
    ∷ sent (ok tt)
    ∷ sent (ok tt)
    ∷ received (ok 1)
    ∷ received (ok 2)
    ∷ left
    ∷ received (err DequeueError.closed)
    ∷ left
    ∷ []

-- The item that was sent last is lost.
three_buffers : (queue 1 3 >>= run 1 3 2 script) ≡ some answers
unfolding run queue append enqueue try_dequeue drop_receiver drop_sender receivers_gone senders_gone
    reference retire retire_all Segment.new_queue Segment.fill Segment.try_enqueue Segment.dequeue
    FinalScq.finalize FinalScq.enqueue Scq.new Scq.cycle Scq.enqueue_entry Scq.enqueue_pass
    ScqEntry.cycle ScqEntry.new ScqEntry.index ScqEntry.is_safe Scq.raise Scq.dequeue
    Scq.dequeue_loop Scq.dequeue_entry Scq.dequeue_pass Scq.missed Scq.catchup
three_buffers = refl

-- A send after the receiver has left gives its item back.
abbrev receiver_first : Script ℕ true true
receiver_first = send 1 (send 2 (receive (receiver_leaves (send 3 done))))

given_back :
    (queue 1 3 >>= run 1 3 2 receiver_first)
    ≡ some (sent (ok tt) ∷ sent (ok tt) ∷ received (ok 1) ∷ left ∷ sent (err 3) ∷ [])
unfolding run queue append enqueue try_dequeue drop_receiver drop_sender receivers_gone senders_gone
    reference retire retire_all Segment.new_queue Segment.fill Segment.try_enqueue Segment.dequeue
    FinalScq.finalize FinalScq.enqueue Scq.new Scq.cycle Scq.enqueue_entry Scq.enqueue_pass
    ScqEntry.cycle ScqEntry.new ScqEntry.index ScqEntry.is_safe Scq.raise Scq.dequeue
    Scq.dequeue_loop Scq.dequeue_entry Scq.dequeue_pass Scq.missed Scq.catchup
given_back = refl

run-queue_example : (queue 2 6 >>= run 2 6 2 script) ≡ some answers
unfolding replies
run-queue_example =
    run-queue (omega arith) (omega arith) (omega arith) (omega arith) 0 script (omega arith)

-- Two items in two buffers of one place.
abbrev two_items : (s : Channel ℕ) × Stands 1 3 true true (1 ∷ 2 ∷ []) s
two_items =
    let new =
      queue-Stands {n = 1} (omega arith) (omega arith) {f = 1} (omega arith) (omega arith) 5
        (omega arith) in
    let one =
      enqueue-Stands {n = 1} (omega arith) (omega arith) {f = 1} (omega arith) (omega arith) true 1
        1 (omega arith) new.2 in
    let two =
      enqueue-Stands {n = 1} (omega arith) (omega arith) {f = 1} (omega arith) (omega arith) true 1
        2 (omega arith) one.2 in
    (two.0, two.2)

drop_receiver-Stands_example :
    (s' : Channel ℕ) × (drop_receiver two_items.0 ≡ some s')
    × Stands 1 3 false true (1 ∷ 2 ∷ []) s'
    × Retired s'.memory (length s'.memory)
drop_receiver-Stands_example = drop_receiver-Stands refl two_items.1
