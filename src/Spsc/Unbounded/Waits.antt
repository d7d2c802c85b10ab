-- ===== src/Spsc/Unbounded/Waits.antt =====
-- The linked queue of src/queues/spsc/unbounded.rs, in which the receiving halves of the buffers wait
-- for the receiver, also after the sender has left it.
use nolock.Prelude.{
  ℕ, ◌≡◌, refl, sym, ap, ◌∙◌, Bool, true, false, some, List, [], ◌∷◌, ◌++◌, arith, ok, ◌>>=◌,
}
use nolock.Spsc.Bounded
use nolock.Spsc.Nodes.{Queue, enqueue, try_dequeue, has_next, drop_sender, drop_receiver}
use nolock.Spsc.Nodes.Refine.{try_dequeue_refines_nodes, has_next_lem, next_item, others}
use nolock.Spsc.Nodes.Sending.{Stands, enqueue_refines}

-- The linked queue holds the buffers `ids`; `gone` tells whether the sender has left it.
abbrev pub Waits : Bool → List ℕ → Queue ℕ → Type 0
Waits gone ids inuse =
    (open_queue : Queue ℕ) × Stands ids open_queue × (inuse ≡ record open_queue { closed = gone })

still : (ids : List ℕ) {q : Queue ℕ} → Stands ids q → record q { closed = false } ≡ q
still ids {q} (chain, spare, h) = ap (λ b. record q { closed = b }) (sym h.still_open)

pub Waits-enqueue :
    (ids : List ℕ) {q : Queue ℕ} (c : ℕ)
    → Waits false ids q
    → (q' : Queue ℕ) × (enqueue q c ≡ some (ok tt, q')) × Waits false (ids ++ (c ∷ [])) q'
Waits-enqueue ids c (o, st, same) =
    let (q', e, st') = enqueue_refines c st in
    (
      q',
      ap (λ q. enqueue q c) (same ∙ still ids st) ∙ e,
      (q', st', sym (still (ids ++ (c ∷ [])) st')),
    )

-- A receive does not look at the flag.
dequeue_flag :
    (q : Queue ℕ) (b : Bool)
    → try_dequeue (record q { closed = b })
      ≡ (try_dequeue q >>= λ r. some (r.0, record (r.1) { closed = b }))
unfolding try_dequeue
dequeue_flag q b = ground arith

pub Waits-dequeue :
    (gone : Bool) (ids : List ℕ) {q : Queue ℕ}
    → Waits gone ids q
    → (q' : Queue ℕ) × (try_dequeue q ≡ some (next_item ids, q')) × Waits gone (others ids) q'
Waits-dequeue gone ids (o, st, same) =
    let (q', e, st') = try_dequeue_refines_nodes st in
    (
      record q' { closed = gone },
      ap try_dequeue same
          ∙ dequeue_flag o gone
          ∙ ap (λ m. m >>= λ r. some (r.0, record (r.1) { closed = gone })) e,
      (q', st', refl),
    )

pub Waits-has_next :
    (gone : Bool) (ids : List ℕ) {q : Queue ℕ}
    → Waits gone ids q
    → has_next q ≡ some (elim ids [ [] ↦ false | c ∷ rest ↦ true ])
unfolding has_next
Waits-has_next gone ids (o, st, same) = ap has_next same ∙ has_next_lem st

-- The recycled nodes are of no use any more, and those that the queue has are as before.
close-Stands :
    {ids : List ℕ} {q : Queue ℕ}
    → Stands ids q
    → Stands ids (record q { recycled = Bounded.close q.recycled })
unfolding Bounded.close
close-Stands (chain, spare, h) = (
  chain,
  record spare { closed = true },
  record {
    still_open = h.still_open;
    one_more = h.one_more;
    first = h.first;
    last = h.last;
    linked = h.linked;
    once = h.once;
    live = h.live;
    recycles = record {
      holds = h.recycles.holds;
      head_at = h.recycles.head_at;
      flag = refl;
      within = h.recycles.within;
    };
  },
)

pub Waits-drop_sender :
    (fuel : ℕ) (ids : List ℕ) {q : Queue ℕ}
    → Waits false ids q
    → (q' : Queue ℕ) × (drop_sender fuel q ≡ some q') × Waits true ids q'
unfolding drop_sender
Waits-drop_sender fuel ids (o, st, same) =
    let o' : Queue ℕ = record o { recycled = Bounded.close o.recycled } in
    (record o' { closed = true }, ap (drop_sender fuel) same, (o', close-Stands st, refl))

pub Waits-drop_receiver :
    (fuel : ℕ) (ids : List ℕ) {q : Queue ℕ}
    → Waits false ids q
    → (q' : Queue ℕ) × (drop_receiver fuel q ≡ some q')
unfolding drop_receiver
Waits-drop_receiver fuel ids (o, st, same) =
    (record o { closed = true; recycled = Bounded.close o.recycled }, ap (drop_receiver fuel) same)
