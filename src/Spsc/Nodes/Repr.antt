-- ===== src/Spsc/Nodes/Repr.antt =====
-- How the nodes of src/queues/spsc/unbounded/d_spsc.rs hold the items: behind the head, along `next`.
use nolock.Prelude.{
  ℕ, zero, suc, ◌<◌, ◌≡◌, ◌≢◌, refl, sym, ap, ◌∙◌, false, inl, inr, Option, none, some, List, [],
  ◌∷◌, ◌++◌, length, get_elem?, set, arith, Once, subst, length-append, get_elem?-set_self,
  get_elem?-set_ne, get_elem?-append_cases, get_elem?-append_lt, get_elem?-append_last,
  lt_of_get_elem?, get_elem?-none, ℕ_discrete, some-injective,
}
use nolock.Spsc.Nodes.{Node, Queue}
use nolock.Spsc.Bounded.Fifo.{Fifo}
use nolock.Spsc.Bounded.Refine.{Represents}

module _ {ℓ} {A : Type ℓ} where
  -- The node `p` is in the memory, with these two fields.
  pub record At (nodes : List (Option (Node A))) (p : ℕ) (item : Option A) (next : Option ℕ)
      : Type ℓ where
    pub node : Node A
    pub found : get_elem? nodes p ≡ some (some node)
    pub item_is : node.item ≡ item
    pub next_is : node.next ≡ next

  -- `chain` are the nodes from the head to the tail: the first one has no item, the one at `suc j`
  -- holds the item at `j`.
  abbrev pub item_at : List A → ℕ → Option A
  item_at items zero = none
  item_at items (suc j) = get_elem? items j

  -- The queue `q` holds `items` in the nodes `chain`, and has the nodes `spare` ready for use again.
  pub record Holds (chain : List ℕ) (spare : Fifo ℕ) (items : List A) (q : Queue A) : Type ℓ where
    pub still_open : q.closed ≡ false
    pub one_more : length chain ≡ suc (length items)
    pub first : get_elem? chain 0 ≡ some q.head
    pub last : get_elem? chain (length items) ≡ some q.tail
    pub linked :
        (i p : ℕ)
        → get_elem? chain i ≡ some p
        → At q.nodes p (item_at items i) (get_elem? chain (suc i))
    pub once : Once (chain ++ spare.items)
    pub live :
        (i p : ℕ)
        → get_elem? spare.items i ≡ some p
        → (c : Node A) × (get_elem? q.nodes p ≡ some (some c))
    pub recycles : Represents 64 spare q.recycled

  -- A write at another node.
  pub At-set_ne :
      {nodes : List (Option (Node A))} {p : ℕ} {item : Option A} {next : Option ℕ} (n : ℕ)
      (c : Option (Node A))
      → n ≢ p
      → At nodes p item next
      → At (set nodes n c) p item next
  At-set_ne {nodes} {p} n c ne at = record {
    node = at.node;
    found = get_elem?-set_ne nodes n p c ne ∙ at.found;
    item_is = at.item_is;
    next_is = at.next_is;
  }

  pub At-append :
      {nodes : List (Option (Node A))} {p : ℕ} {item : Option A} {next : Option ℕ}
      (c : Option (Node A))
      → At nodes p item next
      → At (nodes ++ (c ∷ [])) p item next
  At-append {nodes} {p} c at = record {
    node = at.node;
    found =
        get_elem?-append_lt nodes (c ∷ []) p (lt_of_get_elem? nodes p (some at.node) at.found)
        ∙ at.found;
    item_is = at.item_is;
    next_is = at.next_is;
  }

  -- The node `p` is in the memory.
  abbrev pub Live : List (Option (Node A)) → ℕ → Type ℓ
  Live nodes p = (c : Node A) × (get_elem? nodes p ≡ some (some c))

  pub set-Live :
      (nodes : List (Option (Node A))) (p n : ℕ) (c : Node A)
      → Live nodes p
      → Live (set nodes n (some c)) p
  set-Live nodes p n c (d, e) = elim (ℕ_discrete n p) [
    | yes same ↦ (
      c,
      ap (get_elem? (set nodes n (some c))) (sym same)
          ∙ get_elem?-set_self nodes n (some c) (omega (arith, lt_of_get_elem? nodes p (some d) e)),
    )
    | no ne ↦ (d, get_elem?-set_ne nodes n p (some c) ne ∙ e)
  ]

  pub At-cast :
      {nodes : List (Option (Node A))} {p : ℕ} {item item' : Option A} {next next' : Option ℕ}
      → item ≡ item'
      → next ≡ next'
      → At nodes p item next
      → At nodes p item' next'
  At-cast e f at = record {
    node = at.node;
    found = at.found;
    item_is = at.item_is ∙ e;
    next_is = at.next_is ∙ f;
  }

  -- A node `n` that holds `x` and is in no one's hands, with all else as in `q`.
  pub record Prepared (chain : List ℕ) (spare : Fifo ℕ) (items : List A) (x : A) (n : ℕ)
      (q q' : Queue A) : Type ℓ where
    pub same_closed : q'.closed ≡ q.closed
    pub same_head : q'.head ≡ q.head
    pub same_tail : q'.tail ≡ q.tail
    pub new_at : At q'.nodes n (some x) none
    pub kept :
        (i p : ℕ)
        → get_elem? chain i ≡ some p
        → At q'.nodes p (item_at items i) (get_elem? chain (suc i))
    pub once : Once ((chain ++ (n ∷ [])) ++ spare.items)
    pub live :
        (i p : ℕ)
        → get_elem? spare.items i ≡ some p
        → (c : Node A) × (get_elem? q'.nodes p ≡ some (some c))
    pub recycles : Represents 64 spare q'.recycled

  item_at-append :
      (items : List A) (x : A) (i : ℕ)
      → i < suc (length items)
      → item_at items i ≡ item_at (items ++ (x ∷ [])) i
  item_at-append items x zero lt = refl
  item_at-append items x (suc j) lt = sym (get_elem?-append_lt items (x ∷ []) j (omega arith))

  -- The prepared node is linked behind the tail.
  pub link-Holds :
      {chain : List ℕ} {spare0 spare : Fifo ℕ} {items : List A} {q q' : Queue A} (x : A) (n : ℕ)
      (cur : Node A)
      → Holds chain spare0 items q
      → Prepared chain spare items x n q q'
      → get_elem? q'.nodes q'.tail ≡ some (some cur)
      → Holds (chain ++ (n ∷ [])) spare (items ++ (x ∷ [])) (record q' {
        nodes = set q'.nodes q'.tail (some (record cur { next = some n }));
        tail = n;
      })
  link-Holds {chain} {spare0} {spare} {items} {q} {q'} x n cur h r e = record {
    still_open = r.same_closed ∙ h.still_open;
    one_more =
        omega (arith, length-append chain (n ∷ []), length-append items (x ∷ []), h.one_more);
    first =
        get_elem?-append_lt chain (n ∷ []) 0 (omega (arith, h.one_more))
        ∙ h.first
        ∙ ap some (sym r.same_head);
    last =
        ap (get_elem? (chain ++ (n ∷ []))) (omega (arith, length-append items (x ∷ []), h.one_more))
        ∙ get_elem?-append_last chain n;
    linked = λ i p f. elim (get_elem?-append_cases chain n i p f) [
      | inl (lt, g) ↦ elim (ℕ_discrete i (length items)) [
        | yes same ↦ record {
          node = record cur { next = some n };
          found =
              ap (get_elem? (set q'.nodes q'.tail (some (record cur { next = some n }))))
                (is_tail i p g same)
              ∙ get_elem?-set_self q'.nodes q'.tail _
                  (lt_of_get_elem? q'.nodes q'.tail (some cur) e);
          item_is = tail_item i p g same ∙ item_at-append items x i (omega arith);
          next_is = sym (
              ap (get_elem? (chain ++ (n ∷ []))) (omega (arith, h.one_more))
              ∙ get_elem?-append_last chain n);
        }
        | no ne ↦ At-set_ne q'.tail _ (not_tail i p g ne) (
            At-cast (item_at-append items x i (omega (arith, h.one_more)))
              (sym (get_elem?-append_lt chain (n ∷ []) (suc i) (omega (arith, h.one_more))))
              (r.kept i p g))
      ]
      | inr (at, g) ↦ At-set_ne q'.tail _ (new_not_tail p g) (
          At-cast
            (sym
              (ap (item_at (items ++ (x ∷ []))) (at ∙ h.one_more) ∙ get_elem?-append_last items x))
            (sym (
              get_elem?-none (chain ++ (n ∷ [])) (suc i)
                (omega (arith, length-append chain (n ∷ [])))))
            (subst (λ p. At q'.nodes p (some x) none) (sym g) r.new_at))
    ];
    once = r.once;
    live = λ i p f. set-Live q'.nodes p q'.tail (record cur { next = some n }) (r.live i p f);
    recycles = r.recycles;
  }
    where
      is_tail : (i p : ℕ) → get_elem? chain i ≡ some p → i ≡ length items → p ≡ q'.tail
      is_tail i p g same =
          some-injective _ _ (sym g ∙ ap (get_elem? chain) same ∙ h.last) ∙ sym r.same_tail

      tail_item :
          (i p : ℕ) → get_elem? chain i ≡ some p → i ≡ length items → cur.item ≡ item_at items i
      tail_item i p g same =
          let at = r.kept i p g in
          let one : at.node ≡ cur = cc (at.found, e, is_tail i p g same) in
          ap (λ c. c.item) (sym one) ∙ at.item_is

      not_tail : (i p : ℕ) → get_elem? chain i ≡ some p → i ≢ length items → q'.tail ≢ p
      not_tail i p g ne same =
          let lt = lt_of_get_elem? chain i p g in
          ne (
            h.once i (length items) p (get_elem?-append_lt chain spare0.items i lt ∙ g) (
              get_elem?-append_lt chain spare0.items (length items) (omega (arith, h.one_more))
              ∙ h.last
              ∙ ap some (sym r.same_tail ∙ same)))

      new_not_tail : (p : ℕ) → p ≡ n → q'.tail ≢ p
      new_not_tail p g same =
          let both = chain ++ (n ∷ []) in
          let size = length-append chain (n ∷ []) in
          absurd (
            omega (
              arith,
              h.one_more,
              r.once (length chain) (length items) n
                  (get_elem?-append_lt both spare.items (length chain) (omega (arith, size))
                    ∙ get_elem?-append_last chain n)
                  (get_elem?-append_lt both spare.items (length items)
                      (omega (arith, size, h.one_more))
                    ∙ get_elem?-append_lt chain (n ∷ []) (length items) (omega (arith, h.one_more))
                    ∙ h.last
                    ∙ ap some (sym r.same_tail ∙ same ∙ g)),
            ))
