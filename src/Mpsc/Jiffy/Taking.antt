-- ===== src/Mpsc/Jiffy/Taking.antt =====
-- What the buffers of src/queues/mpsc/jiffy.rs hold once the first item is taken, and how `dequeue_head`
-- computes.
use nolock.Prelude.{
  ℕ, suc, ◌+◌, ◌-◌, ◌*◌, ◌<◌, ◌≤◌, ◌≡◌, ◌≢◌, refl, sym, ap, ◌∙◌, true, false, none, some, List, ◌∷◌,
  length, get_elem?, set, arith, length-set, get_elem?-set_self, get_elem?-set_ne, ok, leb, ◌>>=◌,
  lt_of_get_elem?,
}
use nolock.Mpsc.Node
use nolock.Mpsc.Node.{Node, NodeState, handled, get_state, load}
use nolock.Mpsc.BufferList.{BufferList, Memory}
use nolock.Mpsc.Jiffy.{Channel, put, advance, move_to_next_buffer, dequeue_head}
use nolock.Mpsc.Jiffy.Holds.{node_for, IsBuffer}

module _ {ℓ} {A : Type ℓ} where
  -- A buffer behind the first one, once the first item is taken.
  pub taken_later :
      {size count hb c p : ℕ} {x : A} {l : List A} {b : BufferList A}
      → p ≢ hb
      → IsBuffer size count hb c (x ∷ l) p b
      → IsBuffer size count hb (suc c) l p b
  taken_later {size} {c = c} {p = p} {x = x} {l = l} later h = record {
    position = h.position;
    first = h.first;
    behind = h.behind;
    last = h.last;
    before = h.before;
    entries = h.entries;
    head_first = λ e. absurd (later e);
    head_later = h.head_later;
    nodes = λ j lt le.
        let at : p * size + j - c ≡ suc (p * size + j - suc c) = omega arith in
        h.nodes j lt (omega arith) ∙ ap (λ i. some (node_for (get_elem? (x ∷ l) i))) at;
  }

  -- The first buffer, whose entry at the head is handled and which goes on.
  pub taken_first :
      {size count hb c : ℕ} {x : A} {l : List A} {b : BufferList A}
      → IsBuffer size count hb c (x ∷ l) hb b
      → IsBuffer size count hb (suc c) l hb (record b {
        buffer = set b.buffer b.head (record { content = none; is_set = 2 });
        head = b.head + 1;
      })
  taken_first {size} {hb = hb} {c = c} {x = x} {l = l} {b = b} h = record {
    position = h.position;
    first = h.first;
    behind = h.behind;
    last = h.last;
    before = h.before;
    entries = length-set b.buffer b.head _ ∙ h.entries;
    head_first = λ e. omega (arith, h.head_first refl);
    head_later = λ e. absurd (e refl);
    nodes = λ j lt le.
        let at : hb * size + j - c ≡ suc (hb * size + j - suc c) = omega arith in
        get_elem?-set_ne b.buffer b.head j _ (omega (arith, h.head_first refl))
        ∙ h.nodes j lt (omega arith)
        ∙ ap (λ i. some (node_for (get_elem? (x ∷ l) i))) at;
  }

  -- The second buffer as the first one, and those behind it.
  pub second :
      {size count hb c : ℕ} {l : List A} {b : BufferList A}
      → suc hb * size ≡ c
      → IsBuffer size count hb c l (suc hb) b
      → IsBuffer size count (suc hb) c l (suc hb) (record b { previous = none })
  second at h = record {
    position = h.position;
    first = λ e. refl;
    behind = λ q e le. absurd (omega (arith, e));
    last = h.last;
    before = h.before;
    entries = h.entries;
    head_first = λ e. omega (arith, h.head_later (omega arith));
    head_later = λ e. absurd (e refl);
    nodes = h.nodes;
  }

  pub others :
      {size count hb c p : ℕ} {l : List A} {b : BufferList A}
      → suc hb < p
      → IsBuffer size count hb c l p b
      → IsBuffer size count (suc hb) c l p b
  others lt h = record {
    position = h.position;
    first = λ e. absurd (omega (arith, e));
    behind = λ q e le. h.behind q e (omega arith);
    last = h.last;
    before = h.before;
    entries = h.entries;
    head_first = λ e. absurd (omega (arith, e));
    head_later = λ e. h.head_later (omega arith);
    nodes = h.nodes;
  }

-- The first buffer once its item is taken, before and after its head goes on.
abbrev pub loaded {ℓ} : {A : Type ℓ} → BufferList A → BufferList A
loaded b = record b { buffer = set b.buffer b.head (record { content = none; is_set = 2 }) }

abbrev pub gone_on {ℓ} : {A : Type ℓ} → BufferList A → BufferList A
gone_on b = record (loaded b) { head = b.head + 1 }

-- The two writes to it.
abbrev pub written {ℓ} : {A : Type ℓ} → Memory A → ℕ → BufferList A → Memory A
written m p b = set (set m p (some (loaded b))) p (some (gone_on b))

module _ {ℓ} {A : Type ℓ} (m : Memory A) (p : ℕ) (b : BufferList A) where
  pub length-written : length (written m p b) ≡ length m
  length-written =
      length-set (set m p (some (loaded b))) p (some (gone_on b)) ∙ length-set m p (some (loaded b))

  pub get_written : p < length m → get_elem? (written m p b) p ≡ some (some (gone_on b))
  get_written inside =
      get_elem?-set_self (set m p (some (loaded b))) p (some (gone_on b))
        (omega (arith, length-set m p (some (loaded b))))

  pub get_other : (i : ℕ) → i ≢ p → get_elem? (written m p b) i ≡ get_elem? m i
  get_other i ne =
      get_elem?-set_ne (set m p (some (loaded b))) p i (some (gone_on b)) (λ e. ne (sym e))
      ∙ get_elem?-set_ne m p i (some (loaded b)) (λ e. ne (sym e))

-- The end of the first buffer: it is freed, and the next one is the first.
move_next {ℓ} :
    {A : Type ℓ} (size : ℕ) (s : Channel A) {c next : BufferList A} {q : ℕ}
    → get_elem? s.memory s.head_of_queue ≡ some (some c)
    → size ≤ c.head
    → c.next ≡ some q
    → get_elem? (set s.memory s.head_of_queue none) q ≡ some (some next)
    → move_to_next_buffer size s
      ≡ some (
        true,
        record s {
          memory =
              set (set s.memory s.head_of_queue none) q (some (record next { previous = none }));
          head_of_queue = q;
        },
      )
unfolding move_to_next_buffer
move_next size s {c} found ge behind there =
    let over : leb size c.head ≡ true = ground arith in
    rw (move_to_next_buffer, found, ◌>>=◌, over, behind, there) refl

module _ {ℓ} (size : ℕ) {A : Type ℓ} (s : Channel A) {b : BufferList A} where
  -- The item is taken, and the head stays in its buffer.
  pub dequeue_head_stays :
      (x : A)
      → get_elem? s.memory s.head_of_queue ≡ some (some b)
      → b.head + 1 < size
      → dequeue_head size s (record { content = some x; is_set = 1 })
        ≡ some (ok x, record s { memory = written s.memory s.head_of_queue b })
  unfolding dequeue_head load get_state Node.from_u8 Node.to_u8 put advance move_to_next_buffer
  dequeue_head_stays x found lt =
      let within : leb size (b.head + 1) ≡ false = ground arith in
      let inside = lt_of_get_elem? s.memory s.head_of_queue _ found in
      let once = get_elem?-set_self s.memory s.head_of_queue (some (loaded b)) inside in
      rw (dequeue_head, found, ◌>>=◌, once, get_written s.memory s.head_of_queue b inside, within)
        refl

  -- The item was the last one of its buffer, which is freed.
  pub dequeue_head_moves :
      (x : A) {q : ℕ} {next : BufferList A}
      → get_elem? s.memory s.head_of_queue ≡ some (some b)
      → size ≤ b.head + 1
      → b.next ≡ some q
      → get_elem? (set (written s.memory s.head_of_queue b) s.head_of_queue none) q
        ≡ some (some next)
      → dequeue_head size s (record { content = some x; is_set = 1 })
        ≡ some (
          ok x,
          record s {
            memory =
                set
                  (set (written s.memory s.head_of_queue b) s.head_of_queue none)
                  q
                  (some (record next { previous = none }));
            head_of_queue = q;
          },
        )
  unfolding dequeue_head load get_state Node.from_u8 Node.to_u8 put advance
  dequeue_head_moves x found ge behind there =
      let inside = lt_of_get_elem? s.memory s.head_of_queue _ found in
      let once = get_elem?-set_self s.memory s.head_of_queue (some (loaded b)) inside in
      let moved =
        move_next size (record s { memory = written s.memory s.head_of_queue b }) {c = gone_on b}
          (get_written s.memory s.head_of_queue b inside) ge behind there in
      rw (dequeue_head, found, ◌>>=◌, once, moved) refl
