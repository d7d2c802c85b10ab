-- ===== src/Mpmc/FinalScq/Tests.antt =====
-- Runs of the finalised queue of src/queues/mpmc/unbounded/queue/scq.rs at concrete inputs.
use nolock.Prelude.{◌+◌, ◌≡◌, some, ok, err, ◌>>=◌, arith}
use nolock.Mpmc.Scq
use nolock.Mpmc.Scq.{Queue}
use nolock.Mpmc.FinalScq.{finalize, enqueue}
use nolock.Mpmc.FinalScq.Laws.{finalize_lem}

abbrev two : Queue
two = Scq.new 2

finalize_lem_example :
    (enqueue 2 two 1 ≡ (Scq.enqueue 2 two 1 >>= λ q. some (ok tt, q)))
    × (enqueue 2 (record (finalize two) { tail = (finalize two).tail + 3 }) 1
        ≡ some (err tt, record (finalize two) { tail = (finalize two).tail + 4 }))
unfolding Scq.new
finalize_lem_example = finalize_lem 1 3 1 two (omega arith) (omega arith)
