-- ===== src/Spsc/Nodes/Sending.antt =====
-- What a send on the linked queue of src/queues/spsc/unbounded/d_spsc.rs does to the items.
use nolock.Prelude.{
  ℕ, zero, suc, ◌≡◌, refl, sym, ap, ◌∙◌, Bool, true, false, Option, none, some, List, [], ◌∷◌, ◌++◌,
  length, get_elem?, set, arith, ok, err, Once, Once-snoc, Once-ne_before, append_assoc, append-nil,
  subst, get_elem?-set_self, get_elem?-append_last, lt_of_get_elem?, some-injective,
}
use nolock.Queues.{DequeueError}
use nolock.Spsc.Nodes.{Queue, new, create_new_node, enqueue}
use nolock.Spsc.Nodes.Repr.{
  At, Holds, item_at, Prepared, At-append, link-Holds, At-set_ne, set-Live,
}
use nolock.Spsc.Bounded.Fifo
use nolock.Spsc.Bounded.Fifo.{Fifo}
use nolock.Spsc.Bounded.Refine.{queue-Represents, try_dequeue_refines}

no_spare :
    (c : Bool)
    → (e : DequeueError) × ((Fifo.pop {A = ℕ} (record { items = []; closed = c })).0 ≡ err e)
no_spare true = (_, refl)
no_spare false = (_, refl)

module _ {ℓ} {A : Type ℓ} where
  -- The queue holds the items, in whichever nodes.
  abbrev pub Stands : List A → Queue A → Type ℓ
  Stands items q = (chain : List ℕ) × (spare : Fifo ℕ) × Holds chain spare items q

  pub new-Stands : Stands [] (new {A = A})
  unfolding new
  new-Stands = (
    0 ∷ [],
    record { items = []; closed = false },
    record {
      still_open = refl;
      one_more = refl;
      first = refl;
      last = refl;
      linked = linked_at;
      once = λ i j x e f. only i j x e f;
      live = λ i p e. cc;
      recycles = queue-Represents 64 (omega arith) (omega arith);
    },
  )
    where
      linked_at :
          (i p : ℕ)
          → get_elem? (0 ∷ []) i ≡ some p
          → At (new {A = A}).nodes p (item_at {A = A} [] i) none
      linked_at zero p e =
          subst (λ p. At (new {A = A}).nodes p none none) (some-injective _ _ e)
            (record { node = _; found = refl; item_is = refl; next_is = refl })
      linked_at (suc i) p e = cc

      only : (i j x : ℕ) → get_elem? (0 ∷ []) i ≡ some x → get_elem? (0 ∷ []) j ≡ some x → i ≡ j
      only zero zero x e f = refl
      only zero (suc j) x e f = cc
      only (suc i) j x e f = cc

  Ready : List ℕ → List A → A → Option ℕ → Queue A → Type ℓ
  Ready chain items x previous q =
      (n : ℕ) × (q' : Queue A) × (spare' : Fifo ℕ) × (create_new_node q x previous ≡ some (n, q'))
      × Prepared chain spare' items x n q q'

  prepare_at :
      (chain : List ℕ) (l : List ℕ) (c : Bool) (items : List A) (q : Queue A) (x : A)
      (previous : Option ℕ)
      → Holds chain (record { items = l; closed = c }) items q
      → Ready chain items x previous q
  unfolding create_new_node Ready
  prepare_at chain [] c items q x previous h =
      let (r, e, hr) = try_dequeue_refines h.recycles in
      (
        length q.nodes,
        record q {
          nodes =
              q.nodes ++ (some (record { item = some x; previous = previous; next = none }) ∷ []);
          recycled = r;
        },
        record { items = []; closed = c },
        rw (e, (no_spare c).1) refl,
        record {
          same_closed = refl;
          same_head = refl;
          same_tail = refl;
          new_at = record {
            node = record { item = some x; previous = previous; next = none };
            found = get_elem?-append_last q.nodes _;
            item_is = refl;
            next_is = refl;
          };
          kept = λ i p f. At-append _ (h.linked i p f);
          once = subst Once (sym (append-nil (chain ++ (length q.nodes ∷ [])))) (
              Once-snoc (length q.nodes) chain (subst Once (append-nil chain) h.once) (λ i y f same.
                let at = h.linked i y f in
                absurd (omega (arith, same, lt_of_get_elem? q.nodes y (some at.node) at.found))));
          live = λ i p f. cc;
          recycles = hr;
        },
      )
  prepare_at chain (n ∷ l) c items q x previous h =
      let (r, e, hr) = try_dequeue_refines h.recycles in
      let (old, found) = h.live 0 n refl in
      (
        n,
        record q {
          nodes = set q.nodes n (some (record { item = some x; previous = previous; next = none }));
          recycled = r;
        },
        record { items = l; closed = c },
        rw (e, found) refl,
        record {
          same_closed = refl;
          same_head = refl;
          same_tail = refl;
          new_at = record {
            node = record { item = some x; previous = previous; next = none };
            found = get_elem?-set_self q.nodes n _ (lt_of_get_elem? q.nodes n (some old) found);
            item_is = refl;
            next_is = refl;
          };
          kept = λ i p f. At-set_ne n _ (Once-ne_before chain l n h.once i p f) (h.linked i p f);
          once = subst Once (sym (append_assoc chain (n ∷ []) l)) h.once;
          live = λ i p f. set-Live q.nodes p n _ (h.live (suc i) p f);
          recycles = hr;
        },
      )

  -- A send never fails on an open queue, and the item goes behind the others.
  pub enqueue_refines :
      {items : List A} {q : Queue A} (x : A)
      → Stands items q
      → (q' : Queue A) × (enqueue q x ≡ some (ok tt, q')) × Stands (items ++ (x ∷ [])) q'
  unfolding enqueue Ready
  enqueue_refines {items} {q} x (chain, spare, h) =
      let (n, q', spare', e, r) =
        prepare_at chain spare.items spare.closed items q x (some q.tail) h in
      let at = r.kept (length items) q.tail h.last in
      let found : get_elem? q'.nodes q'.tail ≡ some (some at.node) =
        ap (get_elem? q'.nodes) r.same_tail ∙ at.found in
      (
        record q' {
          nodes = set q'.nodes q'.tail (some (record (at.node) { next = some n }));
          tail = n;
        },
        ground (arith, h.still_open, e, found),
        (chain ++ (n ∷ []), spare', link-Holds x n at.node h r found),
      )
