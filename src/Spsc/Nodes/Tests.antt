-- ===== src/Spsc/Nodes/Tests.antt =====
-- Runs of the linked queue of src/queues/spsc/unbounded/d_spsc.rs at concrete inputs.
use nolock.Prelude.{ℕ, ◌≡◌, refl, false, Option, none, some, List, [], ◌∷◌, ◌>>=◌}
use nolock.Spsc.Bounded
use nolock.Spsc.Nodes.{
  Queue, new, create_new_node, enqueue, try_dequeue, drop_receiver, drop_sender, free_previous,
  free_next, free_recycled, has_next,
}
use nolock.Spsc.Nodes.Refine.{has_next_lem}
use nolock.Spsc.Nodes.Sending.{new-Stands}
use nolock.Spsc.Nodes.Run.{Op, send, receive, run, replies, run-new}

abbrev script : List (Op ℕ)
script = receive ∷ send 1 ∷ send 2 ∷ receive ∷ send 3 ∷ receive ∷ receive ∷ receive ∷ []

run-new_example : run script new ≡ some (replies script [])
run-new_example = run-new script

has_next_lem_example : has_next (new {A = ℕ}) ≡ some false
has_next_lem_example = has_next_lem new-Stands

-- Where a node is used again, `previous` leads from the tail back to it: the sender that goes last
-- drops that node twice.
abbrev reused : Queue ℕ → Option (Queue ℕ)
reused q = do
  (sent_one, q1) ← enqueue q 1
  (got_one, q2) ← try_dequeue q1
  (sent_two, q3) ← enqueue q2 2
  some q3

abbrev receiver_then_sender : Queue ℕ → Option (Queue ℕ)
receiver_then_sender q = do q4 ← drop_receiver 9 q; drop_sender 9 q4

dropped_twice : (reused new >>= receiver_then_sender) ≡ none
unfolding new create_new_node enqueue try_dequeue drop_receiver drop_sender free_previous
    free_recycled Bounded.queue Bounded.try_enqueue Bounded.try_dequeue Bounded.next_element
    Bounded.close
dropped_twice = refl

-- The receiver that goes last drops every node once.
dropped_once : ((q : Queue ℕ) × ((reused new >>= drop_sender 9 >>= drop_receiver 9) ≡ some q))
unfolding new create_new_node enqueue try_dequeue drop_receiver drop_sender free_next free_recycled
    Bounded.queue Bounded.try_enqueue Bounded.try_dequeue Bounded.next_element Bounded.close
dropped_once = (_, refl)
