-- ===== src/Mpmc/Unbounded/Sending.antt =====
-- What a send does to the linked buffers of src/queues/mpmc/unbounded.rs.
use nolock.Prelude.{
  ◌>>=◌, ℕ, suc, ◌+◌, ◌*◌, ◌^◌, ◌<◌, ◌≤◌, ◌≡◌, refl, sym, ap, subst, ◌∙◌, true, false, Option, none,
  some, List, [], ◌∷◌, ◌++◌, get_elem?, set, length, arith, append_assoc, get_elem?-set_self,
  get_elem?-set_ne, get_elem?-append_lt, get_elem?-append_last, length-append, length-set, ok,
  Result, compare_exchange, dec_lt,
}
use nolock.Queues.{EnqueueError}
use nolock.Mpmc.Segment
use nolock.Mpmc.Segment.{BoundedQueue}
use nolock.Mpmc.Segment.Refine.{
  Closed, new_queue-Open, try_enqueue-Open, try_enqueue-Closed, Open-fits,
}
use nolock.Mpmc.Unbounded.{Buffer, Channel, receivers_gone, reference, append, enqueue}
use nolock.Mpmc.Unbounded.Chain.{Chain, last, more, slack, less-Open, Final, final}

module _ {ℓ} {A : Type ℓ} where
  append_computed :
      (n fuel : ℕ) (s : Channel A) (x : A) {made fresh q : BoundedQueue A}
      {answer : Result (Unit {0}) (EnqueueError × A)}
      → Segment.new_queue fuel n ≡ some made
      → Segment.try_enqueue fuel made x ≡ some (answer, fresh)
      → get_elem? (s.memory ++ (some (record { queue = fresh; next = none }) ∷ [])) s.tail
        ≡ some (some (record { queue = q; next = none }))
      → append n fuel s x
        ≡ some (
          none,
          record s {
            memory =
                set
                  (s.memory ++ (some (record { queue = fresh; next = none }) ∷ []))
                  s.tail
                  (some (record { queue = q; next = some (length s.memory) }));
            tail = length s.memory;
          },
        )
  unfolding append
  append_computed n fuel s x e g there =
      let same : (compare_exchange s.tail s.tail (length s.memory)).1 ≡ length s.memory =
        ground arith in
      rw (append, e, g, there, same) refl

module _ {n : ℕ} (pos : 0 < n) (size : n ≤ 2 ^ 30) {f : ℕ} (rounds : f ≤ 2 ^ 61) where
  module _ {ℓ} {A : Type ℓ} {k : ℕ} (budget : n * 9 + k + 3 < 2 ^ 31 * (n * 2)) where
    -- A full buffer is closed, and a new one with the item stands behind it.
    append-Chain :
        (s : Channel A) {l : List A} {q : BoundedQueue A} (x : A)
        → get_elem? s.memory s.tail ≡ some (some (record { queue = q; next = none }))
        → suc s.tail ≡ length s.memory
        → Closed n (slack n k) l q
        → 0 < length l
        → (m : List (Option (Buffer A))) × (append n (suc (suc f)) s x
            ≡ some (none, record s { memory = m; tail = suc s.tail }))
          × (suc (suc s.tail) ≡ length m)
          × ((i : ℕ) → i < s.tail → get_elem? m i ≡ get_elem? s.memory i)
          × Chain n k m true s.tail (l ++ (x ∷ []))
    append-Chain s {l} {q} x at end h filled =
        let (made, e, h0) =
          new_queue-Open size rounds {A = A} (suc (slack n k)) pos (omega arith) in
        let (fresh, g, h1) = try_enqueue-Open size rounds x h0 pos in
        let node : Option (Buffer A) = some (record { queue = fresh; next = none }) in
        let linked : Option (Buffer A) = some (record { queue = q; next = some (suc s.tail) }) in
        let grown : List (Option (Buffer A)) = s.memory ++ (node ∷ []) in
        let there = get_elem?-append_lt s.memory (node ∷ []) s.tail (omega arith) ∙ at in
        let longer = length-append s.memory (node ∷ []) in
        let size' : suc (suc s.tail) ≡ length (set grown s.tail linked) =
          omega (arith, length-set grown s.tail linked) in
        (
          set grown s.tail linked,
          append_computed n (suc (suc f)) s x e g there
              ∙ ap
                  (λ t. some (
                    none,
                    record s {
                      memory = set grown s.tail (some (record { queue = q; next = some t }));
                      tail = t;
                    },
                  ))
                  (sym end),
          size',
          (λ i lt.
              get_elem?-set_ne grown s.tail i linked (omega arith)
              ∙ get_elem?-append_lt s.memory (node ∷ []) i (omega arith)),
          more (get_elem?-set_self grown s.tail linked (omega arith)) h (λ _. filled)
              (last
                (get_elem?-set_ne grown s.tail (suc s.tail) linked (omega arith)
                  ∙ ap (get_elem? grown) end
                  ∙ get_elem?-append_last s.memory node)
                h1 size' (λ _. omega arith)),
        )

    -- Alone, a send puts its item behind the others, in one round.
    pub enqueue-Chain :
        (s : Channel A) {l : List A} (x : A) (r : ℕ)
        → receivers_gone s ≡ false
        → suc s.tail ≡ length s.memory
        → Chain n (suc k) s.memory false s.head l
        → (m : List (Option (Buffer A))) × (tail : ℕ) × (enqueue n (suc (suc f)) (suc r) s x
            ≡ some (ok tt, record s { memory = m; tail = tail }))
          × (suc tail ≡ length m)
          × ((i : ℕ) → i < s.head → get_elem? m i ≡ get_elem? s.memory i)
          × Chain n k m false s.head (l ++ (x ∷ []))
    unfolding enqueue reference
    enqueue-Chain s {l} x r there end c =
        let z : Final n k s.memory false s.head s.tail l = final s.tail end c in
        let behind : (z.before ++ (z.items ++ (x ∷ []))) ≡ l ++ (x ∷ []) =
          sym (append_assoc z.before z.items (x ∷ [])) ∙ ap (λ l. l ++ (x ∷ [])) (sym z.parts) in
        elim (dec_lt (length z.items) n) [
          | yes room ↦
              let (q, e, h) =
                try_enqueue-Open size rounds x (less-Open (omega arith) z.holds) room in
              let node : Option (Buffer A) = some (record { queue = q; next = none }) in
              let end' : suc s.tail ≡ length (set s.memory s.tail node) =
                end ∙ sym (length-set s.memory s.tail node) in
              (
                set s.memory s.tail node,
                s.tail,
                rw (enqueue, z.at, ◌>>=◌, there, z.at, e) refl,
                end',
                (λ i lt. get_elem?-set_ne s.memory s.tail i node (omega (arith, z.behind))),
                subst (Chain n k (set s.memory s.tail node) false s.head) behind (
                    z.replace _ _ (λ i lt. get_elem?-set_ne s.memory s.tail i node (omega arith))
                      (last (get_elem?-set_self s.memory s.tail node (omega arith)) h end'
                        (λ _. omega (arith, length-append z.items (x ∷ []))))),
              )
          | no all ↦
              let (q, e, h) =
                try_enqueue-Closed size rounds x (less-Open (omega arith) z.holds)
                  (omega (arith, Open-fits z.holds)) in
              let node : Option (Buffer A) = some (record { queue = q; next = none }) in
              let (m, g, end', same, c') =
                append-Chain (record s { memory = set s.memory s.tail node }) x
                  (get_elem?-set_self s.memory s.tail node (omega arith))
                  (end ∙ sym (length-set s.memory s.tail node)) h (omega arith) in
              (
                m,
                suc s.tail,
                rw (enqueue, z.at, ◌>>=◌, there, z.at, e, g) refl,
                end',
                (λ i lt.
                    same i (omega (arith, z.behind))
                    ∙ get_elem?-set_ne s.memory s.tail i node (omega (arith, z.behind))),
                subst (Chain n k m false s.head) behind (
                    z.replace m _
                      (λ i lt. same i lt ∙ get_elem?-set_ne s.memory s.tail i node (omega arith))
                      c'),
              )
        ]
