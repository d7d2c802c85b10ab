-- ===== src/Spsc/Nodes/Taking.antt =====
-- What a receive on the linked queue of src/queues/spsc/unbounded/d_spsc.rs does to the nodes, where there is an item.
use nolock.Prelude.{
  ℕ, zero, suc, ◌+◌, ◌≡◌, ◌≢◌, refl, sym, ap, ◌∙◌, inl, inr, Option, none, some, List, [], ◌∷◌,
  ◌++◌, length, get_elem?, set, arith, Result, ok, err, Bool-cases, Once, Once-rotate, Once-tail,
  Once-ne, append_assoc, subst, get_elem?-set_self, get_elem?-set_ne, get_elem?-append_cases,
  get_elem?-append_lt, lt_of_get_elem?, get_elem?-none, get_elem?-append_right, ℕ_discrete,
  some-injective,
}
use nolock.Queues.{EnqueueError, empty}
use nolock.Spsc.Nodes.{Node, Queue, try_dequeue}
use nolock.Spsc.Nodes.Repr.{At, Holds, item_at, At-set_ne, Live, set-Live}
use nolock.Spsc.Bounded
use nolock.Spsc.Bounded.{Channel}
use nolock.Spsc.Bounded.Fifo
use nolock.Spsc.Bounded.Fifo.{Fifo}
use nolock.Spsc.Bounded.Refine.{Represents, try_enqueue_refines}

module _ {ℓ} {A : Type ℓ} where
  unfoldable pub Took : List ℕ → List A → A → Queue A → Type ℓ
  Took chain xs x q =
      (q' : Queue A) × (try_dequeue q ≡ some (ok x, q'))
      × ((spare : Fifo ℕ) × Holds chain spare xs q')

  pub empty_at :
      {chain : List ℕ} {spare : Fifo ℕ} {q : Queue A}
      → Holds chain spare [] q
      → try_dequeue q ≡ some (err empty, q)
  unfolding try_dequeue
  empty_at {chain} {q} h =
      let at = h.linked 0 q.head h.first in
      let end : at.node.next ≡ none =
        at.next_is ∙ get_elem?-none chain 1 (omega (arith, h.one_more)) in
      rw (at.found, end) refl

  -- The head leaves the chain, and its node is handed back or dropped.
  module _ {p : ℕ} {rest : List ℕ} {spare : Fifo ℕ} {x : A} {xs : List A} {q : Queue A}
      (h : Holds (q.head ∷ p ∷ rest) spare (x ∷ xs) q) where
    head-At : At q.nodes q.head none (some p)
    head-At = h.linked 0 q.head refl

    next-At : At q.nodes p (some x) (get_elem? rest 0)
    next-At = h.linked 1 p refl

    taken : List (Option (Node A))
    taken = set q.nodes p (some (record (next-At.node) { item = none }))

    chain-Once : Once (p ∷ rest)
    chain-Once i j y e f =
        let le = lt_of_get_elem? (p ∷ rest) in
        omega (
          arith,
          h.once (suc i) (suc j) y (get_elem?-append_lt (p ∷ rest) spare.items i (le i y e) ∙ e)
              (get_elem?-append_lt (p ∷ rest) spare.items j (le j y f) ∙ f),
        )

    taken-At :
        (i r : ℕ) → get_elem? (p ∷ rest) i ≡ some r → At taken r (item_at xs i) (get_elem? rest i)
    unfolding taken
    taken-At zero r e =
        subst (λ r. At taken r none (get_elem? rest 0)) (some-injective _ _ e)
          (record {
            node = record (next-At.node) { item = none };
            found =
                get_elem?-set_self q.nodes p _
                  (lt_of_get_elem? q.nodes p (some next-At.node) next-At.found);
            item_is = refl;
            next_is = next-At.next_is;
          })
    taken-At (suc i) r e =
        At-set_ne p _ (λ same. omega (arith, chain-Once 0 (suc i) p refl (e ∙ ap some (sym same))))
          (h.linked (suc (suc i)) r e)

    handed_back :
        (s : Channel ℕ)
        → Represents 64 (record spare { items = spare.items ++ (q.head ∷ []) }) s
        → Holds
            (p ∷ rest)
            (record spare { items = spare.items ++ (q.head ∷ []) })
            xs
            (record q { nodes = taken; head = p; recycled = s })
    unfolding taken
    handed_back s hr = record {
      still_open = h.still_open;
      one_more = omega (arith, h.one_more);
      first = refl;
      last = h.last;
      linked = taken-At;
      once =
          subst Once (append_assoc (p ∷ rest) spare.items (q.head ∷ []))
            (Once-rotate q.head ((p ∷ rest) ++ spare.items) h.once);
      live = λ i r e. elim (get_elem?-append_cases spare.items q.head i r e) [
        | inl (lt, f) ↦ set-Live q.nodes r p _ (h.live i r f)
        | inr (at, f) ↦
            subst (Live taken) (sym f) (set-Live q.nodes q.head p _ (head-At.node, head-At.found))
      ];
      recycles = hr;
    }

    dropped :
        (s : Channel ℕ)
        → Represents 64 spare s
        → Holds
            (p ∷ rest)
            spare
            xs
            (record q { nodes = set taken q.head none; head = p; recycled = s })
    unfolding taken
    dropped s hr = record {
      still_open = h.still_open;
      one_more = omega (arith, h.one_more);
      first = refl;
      last = h.last;
      linked = λ i r e. At-set_ne q.head none (not_head i r e) (taken-At i r e);
      once = Once-tail ((p ∷ rest) ++ spare.items) h.once;
      live = λ i r e.
          let (c, f) =
            set-Live q.nodes r p (record (next-At.node) { item = none }) (h.live i r e) in
          (c, get_elem?-set_ne taken q.head r none (spare_not_head i r e) ∙ f);
      recycles = hr;
    }
      where
        not_head : (i r : ℕ) → get_elem? (p ∷ rest) i ≡ some r → q.head ≢ r
        not_head i r e same =
            Once-ne q.head ((p ∷ rest) ++ spare.items) h.once i r
              (get_elem?-append_lt (p ∷ rest) spare.items i (lt_of_get_elem? (p ∷ rest) i r e) ∙ e)
              (sym same)

        spare_not_head : (i r : ℕ) → get_elem? spare.items i ≡ some r → q.head ≢ r
        spare_not_head i r e same =
            Once-ne q.head ((p ∷ rest) ++ spare.items) h.once (length (p ∷ rest) + i) r
              (get_elem?-append_right (p ∷ rest) spare.items i ∙ e) (sym same)

    answers :
        {o : Result (Unit {0}) (ℕ × EnqueueError)} {f : Fifo ℕ} {s : Channel ℕ}
        → Fifo.push 64 spare q.head ≡ (o, f)
        → Bounded.try_enqueue q.recycled q.head ≡ some ((Fifo.push 64 spare q.head).0, s)
        → try_dequeue q
          ≡ some (
            ok x,
            record q {
              nodes = elim o [ ok _ ↦ taken | err _ ↦ set taken q.head none ];
              head = p;
              recycled = s;
            },
          )
    unfolding try_dequeue taken
    answers {s} pushed e = ground (
      arith,
      head-At.found,
      head-At.next_is,
      next-At.found,
      next-At.item_is,
      e ∙ ap (λ r. some (r.0, s)) pushed,
    )

    pub took : Took (p ∷ rest) xs x q
    unfolding try_dequeue taken Took
    took =
        let (s, e, hr) = try_enqueue_refines h.recycles q.head in
        elim (Bool-cases spare.closed) [
          | inl c ↦ (
            record q { nodes = set taken q.head none; head = p; recycled = s },
            answers (Fifo.push_closed 64 spare q.head c) e,
            (spare, dropped s (rw (Fifo.push_closed 64 spare q.head c) at hr)),
          )
          | inr o ↦ elim (ℕ_discrete (length spare.items) 64) [
            | yes all ↦ (
              record q { nodes = set taken q.head none; head = p; recycled = s },
              answers (Fifo.push_full 64 spare q.head o all) e,
              (spare, dropped s (rw (Fifo.push_full 64 spare q.head o all) at hr)),
            )
            | no some_room ↦ (
              record q { nodes = taken; head = p; recycled = s },
              answers (Fifo.push_room 64 spare q.head o some_room) e,
              (
                record spare { items = spare.items ++ (q.head ∷ []) },
                handed_back s (rw (Fifo.push_room 64 spare q.head o some_room) at hr),
              ),
            )
          ]
        ]
