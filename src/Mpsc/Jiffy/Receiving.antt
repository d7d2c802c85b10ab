-- ===== src/Mpsc/Jiffy/Receiving.antt =====
-- What a receive does to the buffers of src/queues/mpsc/jiffy.rs.
use nolock.Prelude.{
  ℕ, suc, ◌+◌, ◌-◌, ◌*◌, ◌<◌, ◌≤◌, ◌≡◌, ◌≢◌, refl, sym, ap, subst, ◌∙◌, Bool, Option, none, some,
  List, ◌∷◌, length, get_elem?, set, arith, length-set, get_elem?-set_self, get_elem?-set_ne,
  dec_lt, ℕ_discrete, ok, Result, ◌>>=◌,
}
use nolock.Queues.{DequeueError}
use nolock.Mpsc.Node
use nolock.Mpsc.Node.{Node, NodeState, handled, get_state, load}
use nolock.Mpsc.BufferList.{BufferList, Memory}
use nolock.Mpsc.Jiffy.{Channel, current, current_or_next, skip_handled, dequeue_head, try_dequeue}
use nolock.Mpsc.Jiffy.Holds.{node_for, IsBuffer, Holds}
use nolock.Mpsc.Jiffy.Taking.{
  taken_later, taken_first, second, others, gone_on, written, get_other, get_written,
  length-written, dequeue_head_stays, dequeue_head_moves,
}

-- A receive of the first item must leave this.
abbrev pub Taken {ℓ} :
    {A : Type ℓ} → ℕ → ℕ → List A → Option (Result A DequeueError × Channel A) → A → Bool → Type ℓ
Taken {A} size c l answer x closed =
    (s' : Channel A) × (hb : ℕ) × (answer ≡ some (ok x, s'))
    × (s'.closed ≡ closed)
    × Holds size c hb l s'

module _ {ℓ} {A : Type ℓ} {size c : ℕ} (big : 3 ≤ size) {x : A} {l : List A} {s : Channel A} where
  head_stays :
      (b : BufferList A)
      → Holds size c s.head_of_queue (x ∷ l) s
      → get_elem? s.memory s.head_of_queue ≡ some (some b)
      → IsBuffer size (length s.memory) s.head_of_queue c (x ∷ l) s.head_of_queue b
      → b.head + 1 < size
      → Taken size
          (suc c)
          l
          (dequeue_head size s (record { content = some x; is_set = 1 }))
          x
          s.closed
  head_stays b h found hb lt =
      let hd : ℕ = s.head_of_queue in
      let m : Memory A = written s.memory hd b in
      let same : length m ≡ length s.memory = length-written s.memory hd b in
      let e = ap (λ k. k * size) same in
      (
        record s { memory = m },
        hd,
        dequeue_head_stays size s x found lt,
        refl,
        record {
          tail_at = omega (arith, h.tail_at);
          head_at = refl;
          last_at = h.last_at ∙ sym same;
          reach = omega (arith, h.reach, e);
          near = omega (arith, h.near, e);
          from = omega (arith, h.from);
          to = omega (arith, hb.head_first refl);
          layout = record {
            head_in = omega (arith, h.layout.head_in);
            buffers = λ p lo hi.
                subst
                  (λ n.
                    (b : BufferList A) × (get_elem? m p ≡ some (some b))
                    × IsBuffer size n hd (suc c) l p b)
                  (sym same)
                  (elim (ℕ_discrete p hd) [
                    | yes here ↦ (
                      gone_on b,
                      ap (get_elem? m) here ∙ get_written s.memory hd b h.layout.head_in,
                      subst (λ p. IsBuffer size (length s.memory) hd (suc c) l p (gone_on b))
                          (sym here) (taken_first hb),
                    )
                    | no later ↦
                        let (b', found', h') = h.layout.buffers p lo (omega arith) in
                        (b', get_other s.memory hd b p later ∙ found', taken_later later h')
                  ]);
          };
        },
      )

  head_moves :
      (b : BufferList A)
      → Holds size c s.head_of_queue (x ∷ l) s
      → get_elem? s.memory s.head_of_queue ≡ some (some b)
      → IsBuffer size (length s.memory) s.head_of_queue c (x ∷ l) s.head_of_queue b
      → size ≤ b.head + 1
      → Taken size
          (suc c)
          l
          (dequeue_head size s (record { content = some x; is_set = 1 }))
          x
          s.closed
  head_moves b h found hb ge =
      let hd : ℕ = s.head_of_queue in
      let count : ℕ = length s.memory in
      let end : suc c ≡ suc hd * size = omega (arith, hb.head_first refl, h.to) in
      let more : suc hd < count = elim (dec_lt (suc hd) count) [
        | yes lt ↦ lt
        | no no_next ↦
            let only : suc hd ≡ count = omega (arith, h.layout.head_in) in
            absurd (omega (arith, h.reach, end, ap (λ k. k * size) only))
      ] in
      let (next, there, hn) = h.layout.buffers (suc hd) (omega arith) more in
      let m1 : Memory A = written s.memory hd b in
      let m2 : Memory A = set m1 hd none in
      let cell : Option (BufferList A) = some (record next { previous = none }) in
      let m : Memory A = set m2 (suc hd) cell in
      let same1 : length m2 ≡ count = length-set m1 hd none ∙ length-written s.memory hd b in
      let same : length m ≡ count = length-set m2 (suc hd) cell ∙ same1 in
      let e = ap (λ k. k * size) same in
      let kept = λ (i : ℕ) (ne : i ≢ hd).
        get_elem?-set_ne m1 hd i none (λ e. ne (sym e)) ∙ get_other s.memory hd b i ne in
      (
        record s { memory = m; head_of_queue = suc hd },
        suc hd,
        dequeue_head_moves size s x found ge (hb.before more) (kept (suc hd) (omega arith) ∙ there),
        refl,
        record {
          tail_at = omega (arith, h.tail_at);
          head_at = refl;
          last_at = h.last_at ∙ sym same;
          reach = omega (arith, h.reach, e);
          near = omega (arith, h.near, e);
          from = omega (arith, end);
          to = omega (arith, end);
          layout = record {
            head_in = omega arith;
            buffers = λ p lo hi.
                subst
                  (λ n.
                    (b : BufferList A) × (get_elem? m p ≡ some (some b))
                    × IsBuffer size n (suc hd) (suc c) l p b)
                  (sym same)
                  (elim (ℕ_discrete p (suc hd)) [
                    | yes here ↦ (
                      record next { previous = none },
                      ap (get_elem? m) here ∙ get_elem?-set_self m2 (suc hd) cell (omega arith),
                      subst
                          (λ p.
                            IsBuffer size count (suc hd) (suc c) l p
                              (record next { previous = none }))
                          (sym here) (second (sym end) (taken_later (omega arith) hn)),
                    )
                    | no later ↦
                        let (b', found', h') = h.layout.buffers p (omega arith) (omega arith) in
                        (
                          b',
                          get_elem?-set_ne m2 (suc hd) p cell (λ e. later (sym e))
                              ∙ kept p (omega arith)
                              ∙ found',
                          others (omega arith) (taken_later (omega arith) h'),
                        )
                  ]);
          };
        },
      )

  -- The first item is at the head.
  pub try_dequeue_first :
      (fuel : ℕ)
      → Holds size c s.head_of_queue (x ∷ l) s
      → Taken size (suc c) l (try_dequeue size (suc fuel) s) x s.closed
  unfolding try_dequeue current_or_next current skip_handled get_state Node.from_u8
  try_dequeue_first fuel h =
      let (b, found, hb) = h.layout.buffers s.head_of_queue (omega arith) h.layout.head_in in
      let index : s.head_of_queue * size + b.head - c ≡ 0 = omega (arith, hb.head_first refl) in
      let entry : get_elem? b.buffer b.head ≡ some (record { content = some x; is_set = 1 }) =
        hb.nodes b.head (omega (arith, hb.head_first refl, h.to))
          (omega (arith, hb.head_first refl))
        ∙ ap (λ i. some (node_for (get_elem? (x ∷ l) i))) index in
      let goes_on : try_dequeue size (suc fuel) s
          ≡ dequeue_head size s (record { content = some x; is_set = 1 }) =
        rw (try_dequeue, found, ◌>>=◌, entry) refl in
      subst (λ o. Taken size (suc c) l o x s.closed) (sym goes_on)
        (elim (dec_lt (b.head + 1) size) [
          | yes lt ↦ head_stays b h found hb lt
          | no ge ↦ head_moves b h found hb (omega arith)
        ])
