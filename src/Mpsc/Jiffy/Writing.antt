-- ===== src/Mpsc/Jiffy/Writing.antt =====
-- An item is written, and a buffer added, in the memory of src/queues/mpsc/jiffy.rs.
use nolock.Prelude.{
  ℕ, suc, ◌+◌, ◌-◌, ◌*◌, ◌<◌, ◌≤◌, ◌≡◌, ◌≢◌, refl, sym, ap, subst, ◌∙◌, Option, none, some, List,
  [], ◌∷◌, ◌++◌, length, get_elem?, set, arith, compare_exchange, length-append, length-set,
  length-replicate, get_elem?-replicate, get_elem?-set_self, get_elem?-set_ne, get_elem?-append_lt,
  get_elem?-append_last, get_elem?-none, dec_lt, ℕ_discrete,
}
use nolock.Mpsc.Node
use nolock.Mpsc.Node.{Node, store}
use nolock.Mpsc.BufferList.{BufferList, Memory, boxed, allocate_next}
use nolock.Mpsc.Jiffy.Holds.{node_for, IsBuffer, Layout, block-le}

module _ {ℓ} {A : Type ℓ} where
  append_ne :
      (l : List A) (x : A) (i : ℕ) → i ≢ length l → get_elem? (l ++ (x ∷ [])) i ≡ get_elem? l i
  append_ne l x i ne = elim (dec_lt i (length l)) [
    | yes lt ↦ get_elem?-append_lt l (x ∷ []) i lt
    | no ge ↦
        get_elem?-none (l ++ (x ∷ [])) i (omega (arith, length-append l (x ∷ [])))
        ∙ sym (get_elem?-none l i (omega arith))
  ]

  -- A buffer with other entries, in a memory of the same length.
  rewritten :
      {size count count' hb c p : ℕ} {l l' : List A} {b : BufferList A} (nodes : List (Node A))
      → count' ≡ count
      → IsBuffer size count hb c l p b
      → length nodes ≡ size
      → ((j : ℕ)
          → j < size
          → c ≤ p * size + j
          → get_elem? nodes j ≡ some (node_for (get_elem? l' (p * size + j - c))))
      → IsBuffer size count' hb c l' p (record b { buffer = nodes })
  rewritten nodes same h entries at = record {
    position = h.position;
    first = h.first;
    behind = h.behind;
    last = λ e. h.last (e ∙ same);
    before = λ lt. h.before (omega arith);
    entries = entries;
    head_first = h.head_first;
    head_later = h.head_later;
    nodes = at;
  }

  -- A place other than the first free one keeps its entry.
  keeps :
      {size count c hb : ℕ} {l : List A} (x : A) (p j : ℕ) {b : BufferList A}
      → IsBuffer size count hb c l p b
      → j < size
      → c ≤ p * size + j
      → p * size + j ≢ c + length l
      → get_elem? b.buffer j ≡ some (node_for (get_elem? (l ++ (x ∷ [])) (p * size + j - c)))
  keeps {size} {c = c} {l = l} x p j h lt le ne =
      h.nodes j lt le
      ∙ ap (λ o. some (node_for o))
          (sym (append_ne l x (p * size + j - c) (λ e. ne (omega (arith, e)))))

  module _ {size c hb : ℕ} {l : List A} {m : Memory A} where
    -- The item `x` is written at the first free place, the entry `j` of the buffer `q`.
    pub store-Layout :
        (q j : ℕ) (x : A)
        → Layout size c hb l m
        → hb ≤ q
        → q < length m
        → j < size
        → q * size + j ≡ c + length l
        → (b : BufferList A) × (get_elem? m q ≡ some (some b))
          × (b.position_in_queue ≡ suc q)
          × (get_elem? b.buffer j ≡ some (record { content = none; is_set = 0 }))
          × Layout size c hb (l ++ (x ∷ [])) (
              set m q (
                some
                  (record b { buffer = set b.buffer j (record { content = some x; is_set = 1 }) })))
    store-Layout q j x lay from inside lt at =
        let (b, found, h) = lay.buffers q from inside in
        let v : Node A = record { content = some x; is_set = 1 } in
        let m' : Memory A = set m q (some (record b { buffer = set b.buffer j v })) in
        let same : length m' ≡ length m = length-set m q _ in
        (
          b,
          found,
          h.position,
          h.nodes j lt (omega arith)
              ∙ ap (λ o. some (node_for o)) (get_elem?-none l _ (omega arith)),
          record {
            head_in = omega (arith, lay.head_in);
            buffers = λ p lo hi. elim (ℕ_discrete p q) [
              | yes here ↦ (
                record b { buffer = set b.buffer j v },
                ap (get_elem? m') here ∙ get_elem?-set_self m q _ inside,
                subst
                    (λ p.
                      IsBuffer size (length m') hb c (l ++ (x ∷ [])) p
                        (record b { buffer = set b.buffer j v }))
                    (sym here)
                    (rewritten (set b.buffer j v) same h (length-set b.buffer j v ∙ h.entries)
                      (λ i low le. elim (ℕ_discrete i j) [
                        | yes e ↦
                            ap (get_elem? (set b.buffer j v)) e
                            ∙ get_elem?-set_self b.buffer j v (omega (arith, h.entries))
                            ∙ ap (λ o. some (node_for o))
                                (sym (
                                  ap (get_elem? (l ++ (x ∷ []))) (omega (arith, e, at))
                                  ∙ get_elem?-append_last l x))
                        | no ne ↦
                            get_elem?-set_ne b.buffer j i v (λ e. ne (sym e))
                            ∙ keeps x q i h low le (λ e. ne (omega (arith, e, at)))
                      ])),
              )
              | no there ↦
                  let (b', found', h') = lay.buffers p lo (omega arith) in
                  (
                    b',
                    get_elem?-set_ne m q p _ (λ e. there (sym e)) ∙ found',
                    rewritten b'.buffer same h' h'.entries (λ i low le. keeps x p i h' low le (λ e.
                        elim (dec_lt p q) [
                          | yes below ↦ omega (arith, block-le p q size below, e, at)
                          | no above ↦ omega (arith, block-le q p size (omega arith), e, at)
                        ])),
                  )
            ];
          },
        )

  module _ {size count count' hb c p : ℕ} {l : List A} {b : BufferList A}
      (same : count' ≡ suc count) where
    -- One more buffer does not matter to those before the last one.
    earlier : suc p < count → IsBuffer size count hb c l p b → IsBuffer size count' hb c l p b
    earlier lt h = record {
      position = h.position;
      first = h.first;
      behind = h.behind;
      last = λ e. absurd (omega (arith, e));
      before = λ _. h.before lt;
      entries = h.entries;
      head_first = h.head_first;
      head_later = h.head_later;
      nodes = h.nodes;
    }

    linked :
        suc p ≡ count
        → IsBuffer size count hb c l p b
        → IsBuffer size count' hb c l p (record b { next = some (suc p) })
    linked end h = record {
      position = h.position;
      first = h.first;
      behind = h.behind;
      last = λ e. absurd (omega (arith, e));
      before = λ _. refl;
      entries = h.entries;
      head_first = h.head_first;
      head_later = h.head_later;
      nodes = h.nodes;
    }

  -- A new buffer holds nothing.
  fresh-IsBuffer :
      {size count' hb c t k : ℕ} {l : List A}
      → suc (suc t) ≡ count'
      → hb ≤ t
      → k ≡ suc (suc t)
      → c + length l ≤ suc t * size
      → IsBuffer size count' hb c l (suc t) (boxed size (some t) k)
  unfolding boxed Node.new
  fresh-IsBuffer {size} {c = c} {t = t} {l = l} end from at room = record {
    position = at;
    first = λ e. absurd (omega (arith, e));
    behind = λ q e le. ap some (omega (arith, e));
    last = λ _. refl;
    before = λ lt. absurd (omega (arith, lt));
    entries = length-replicate size _;
    head_first = λ e. absurd (omega (arith, e));
    head_later = λ _. refl;
    nodes = λ j lt le.
        get_elem?-replicate size j _ lt
        ∙ ap (λ o. some (node_for o))
            (sym (get_elem?-none l (suc t * size + j - c) (omega (arith, room, le))));
  }

  module _ {size c hb : ℕ} {l : List A} {m : Memory A} where
    -- A new buffer behind the last one.
    pub allocate_next-Layout :
        (t : ℕ)
        → Layout size c hb l m
        → suc t ≡ length m
        → hb ≤ t
        → c + length l ≤ length m * size
        → (m' : Memory A) × (allocate_next size m t t ≡ some (suc t, m', suc t))
          × (length m' ≡ suc (length m))
          × Layout size c hb l m'
    unfolding allocate_next boxed Node.new
    allocate_next-Layout t lay end from room =
        let (b, found, h) = lay.buffers t from (omega arith) in
        let fresh : Option (BufferList A) = some (boxed size (some t) (b.position_in_queue + 1)) in
        let grown : Memory A = m ++ (fresh ∷ []) in
        let linked_b : Option (BufferList A) = some (record b { next = some (suc t) }) in
        let m' : Memory A = set grown t linked_b in
        let longer = length-append m (fresh ∷ []) in
        let same : length m' ≡ suc (length m) =
          length-set grown t linked_b ∙ longer ∙ omega arith in
        let there : get_elem? grown t ≡ some (some b) =
          get_elem?-append_lt m (fresh ∷ []) t (omega arith) ∙ found in
        let moved : (compare_exchange t t (suc t)).1 ≡ suc t = ground arith in
        let alone : b.next ≡ none = h.last end in
        (
          m',
          rw (allocate_next, found, there, alone, sym end, moved) refl,
          same,
          record {
            head_in = omega (arith, lay.head_in);
            buffers = λ p lo hi. elim (dec_lt p t) [
              | yes below ↦
                  let (b', found', h') = lay.buffers p lo (omega arith) in
                  (
                    b',
                    get_elem?-set_ne grown t p linked_b (omega arith)
                        ∙ get_elem?-append_lt m (fresh ∷ []) p (omega arith)
                        ∙ found',
                    earlier same (omega arith) h',
                  )
              | no from_t ↦ elim (ℕ_discrete p t) [
                | yes here ↦ (
                  record b { next = some (suc t) },
                  ap (get_elem? m') here ∙ get_elem?-set_self grown t linked_b (omega arith),
                  subst (λ p. IsBuffer size (length m') hb c l p (record b { next = some (suc t) }))
                      (sym here) (linked same end h),
                )
                | no behind ↦
                    let at : p ≡ suc t = omega arith in
                    (
                      boxed size (some t) (b.position_in_queue + 1),
                      get_elem?-set_ne grown t p linked_b (omega arith)
                          ∙ ap (get_elem? grown) (at ∙ end)
                          ∙ get_elem?-append_last m fresh,
                      subst
                          (λ p.
                            IsBuffer size (length m') hb c l p
                              (boxed size (some t) (b.position_in_queue + 1)))
                          (sym at)
                          (fresh-IsBuffer (omega arith) from (omega (arith, h.position))
                            (omega (arith, ap (λ k. k * size) end))),
                    )
              ]
            ];
          },
        )
