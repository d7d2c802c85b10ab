-- ===== src/Mpmc/Tests.antt =====
-- Runs of the queues of src/queues/mpmc at concrete inputs.
use nolock.Prelude.{ℕ, ◌≡◌, refl, true, some, [], ◌∷◌, arith, ok, err, ◌>>=◌, inl}
use nolock.Queues.{full, DequeueError, empty}
use nolock.Mpmc.NcqEntry
use nolock.Mpmc.Ncq
use nolock.Mpmc.Ncq.Holds.{Holds}
use nolock.Mpmc.Ncq.Laws.{new-Holds, enqueue-Holds}
use nolock.Mpmc.Bounded.{
  queue, fill, try_enqueue, try_dequeue, receivers_gone, senders_gone, drop_sender,
}
use nolock.Mpmc.Bounded.Run.{
  Script, done, send, receive, sender_leaves, sent, received, left, replies, run,
}
use nolock.Mpmc.NcqBounded.{ncq, queue_ncq, run-queue_ncq}
use nolock.Mpmc.Ncq.Keeps.{place-Holds}
use nolock.Mpmc.ScqEntry
use nolock.Mpmc.Scq
use nolock.Mpmc.ScqBounded.{scq, queue_scq, run-queue_scq}

abbrev script : Script ℕ true true
script =
    receive (
      send 1
        (send 2 (send 3 (receive (send 4 (sender_leaves (receive (receive (receive done)))))))))

script_replies :
    (queue_ncq (λ n. n) 2 >>= run ncq script)
    ≡ some (
        received (err empty)
        ∷ sent (ok tt)
        ∷ sent (ok tt)
        ∷ sent (err (full, 3))
        ∷ received (ok 1)
        ∷ sent (ok tt)
        ∷ left
        ∷ received (ok 2)
        ∷ received (ok 4)
        ∷ received (err DequeueError.closed)
        ∷ [])
unfolding queue_ncq queue fill run try_enqueue try_dequeue receivers_gone senders_gone drop_sender
    Ncq.new Ncq.cycle Ncq.enqueue Ncq.enqueue_loop Ncq.enqueue_round Ncq.dequeue Ncq.dequeue_round
    NcqEntry.value NcqEntry.cycle NcqEntry.index
script_replies = refl

run-queue_ncq_example :
    (queue_ncq (λ n. n) 2 >>= run ncq script)
    ≡ some (replies 2 script (record { items = []; receiver = true; sender = true }))
run-queue_ncq_example =
    run-queue_ncq (λ n. n) 2 script refl (omega arith) (omega arith) (omega arith)

entry_fields_example :
    (NcqEntry.cycle (NcqEntry.value 7 5) ≡ 7) × (NcqEntry.index (NcqEntry.value 7 5) ≡ 5)
entry_fields_example = NcqEntry.entry_fields 7 5 (omega arith) (omega arith)

-- The same on the other index queues: the first receive leaves a head beyond the tail.
script_on_scq :
    (queue_scq 2 >>= run scq script)
    ≡ some (
        received (err empty)
        ∷ sent (ok tt)
        ∷ sent (ok tt)
        ∷ sent (err (full, 3))
        ∷ received (ok 1)
        ∷ sent (ok tt)
        ∷ left
        ∷ received (ok 2)
        ∷ received (ok 4)
        ∷ received (err DequeueError.closed)
        ∷ [])
unfolding queue_scq queue fill run try_enqueue try_dequeue receivers_gone senders_gone drop_sender
    Scq.new Scq.cycle Scq.enqueue Scq.enqueue_entry Scq.enqueue_pass Scq.raise Scq.dequeue
    Scq.dequeue_loop Scq.dequeue_entry Scq.dequeue_pass Scq.missed Scq.catchup ScqEntry.new
    ScqEntry.cycle ScqEntry.index ScqEntry.is_safe
script_on_scq = refl

run-queue_scq_example :
    (queue_scq 2 >>= run scq script)
    ≡ some (replies 2 script (record { items = []; receiver = true; sender = true }))
run-queue_scq_example = run-queue_scq 2 script (omega arith) (omega arith) (omega arith)

entry_data_fields_example :
    (ScqEntry.is_safe (ScqEntry.new true 21 5) ≡ true)
    × (ScqEntry.cycle (ScqEntry.new true 21 5) ≡ 21)
    × (ScqEntry.index (ScqEntry.new true 21 5) ≡ 5)
entry_data_fields_example = ScqEntry.entry_data_fields true 21 5 (omega arith) (omega arith)

-- A new index queue in which a thread has placed 1 and not yet moved the tail.
abbrev lagging : Ncq.Queue
lagging = record { entries = NcqEntry.value 1 1 ∷ 0 ∷ []; capacity = 2; head = 2; tail = 2 }

lagging-Holds : Holds 2 1 (1 ∷ []) lagging
unfolding Ncq.new
lagging-Holds =
    place-Holds 1 2 (new-Holds (λ n. n) 2 2 refl (omega arith) (omega arith)) refl (omega arith)
      (omega arith) (inl refl)

enqueue-Holds_example :
    (q : Ncq.Queue) × (Ncq.enqueue 2 lagging 0 ≡ some q) × Holds 2 0 (1 ∷ 0 ∷ []) q
enqueue-Holds_example = enqueue-Holds 0 0 lagging-Holds (omega arith) (omega arith)
