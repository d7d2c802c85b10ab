-- ===== src/Spsc/Unbounded/Receiving.antt =====
-- What a receive of src/queues/spsc/unbounded.rs gives, and what it leaves.
use nolock.Prelude.{
  ℕ, suc, ◌≤◌, ◌≡◌, refl, sym, ◌∙◌, subst, Bool, true, false, some, List, [], ◌∷◌, ◌++◌, length,
  get_elem?, set, arith, get_elem?-set_self, get_elem?-set_ne, length-set,
}
use nolock.Spsc.Bounded
use nolock.Spsc.Bounded.{Channel}
use nolock.Spsc.Bounded.Fifo
use nolock.Spsc.Bounded.Fifo.{Fifo}
use nolock.Spsc.Bounded.Refine.{Represents, try_dequeue_refines}
use nolock.Spsc.Nodes
use nolock.Spsc.Unbounded.{Queue, leave, dequeue_next, try_dequeue}
use nolock.Spsc.Unbounded.Waits.{Waits, Waits-dequeue}
use nolock.Spsc.Unbounded.Repr.{
  range, concat, BufferAt, Buffers, senders, left_behind, Holds, Contains, Buffers-length,
  Buffers-same,
}

module _ {ℓ} {A : Type ℓ} where
  -- The first buffer, and what is left when it is written.
  abbrev pub First : ℕ → Bool → List (Channel A) → ℕ → List A → List (List A) → Type ℓ
  First n gone channels c l segments =
      (b : Bool) × BufferAt n channels c (record { items = l; closed = b })
      × ((s : Channel A) (l' : List A)
          → Represents n (record { items = l'; closed = b }) s
          → Buffers n gone (set channels c s) c l' segments)

  pub First-BufferAt :
      {n : ℕ} {gone : Bool} {channels : List (Channel A)} (c : ℕ) (l : List A)
      (segments : List (List A))
      → Buffers n gone channels c l segments
      → First n gone channels c l segments
  First-BufferAt {gone} {channels} c l [] (senders at size) = (
    gone,
    at,
    λ s l' r.
        senders (s, get_elem?-set_self channels c s (omega (arith, size)), r)
          (size ∙ sym (length-set channels c s)),
  )
  First-BufferAt {channels} c l (m ∷ segments) (left_behind at filled more) = (
    true,
    at,
    λ s l' r.
        left_behind
          (
            s,
            get_elem?-set_self channels c s (omega (arith, Buffers-length (suc c) segments more)),
            r,
          )
          filled
          (Buffers-same (suc c) segments (λ i le. get_elem?-set_ne channels c i s (omega arith))
            (length-set channels c s) more),
  )

  abbrev pub Received : ℕ → Bool → List A → Queue A → Type ℓ
  Received n gone items q =
      (q' : Queue A) × (try_dequeue q
        ≡ some ((Fifo.pop (record { items = items; closed = gone })).0, q'))
      × Contains n gone (Fifo.pop (record { items = items; closed = gone })).1.items q'

  -- The receiver's buffer has an item.
  receive_here :
      {n : ℕ} {gone : Bool} (x : A) (l : List A) (segments : List (List A)) {q : Queue A}
      → Holds n gone (x ∷ l) segments q
      → Received n gone (x ∷ (l ++ concat segments)) q
  unfolding try_dequeue
  receive_here x l segments {q} h =
      let (b, (s, at, r), write) = First-BufferAt q.buf_r (x ∷ l) segments h.buffers in
      let (s', e, r') = try_dequeue_refines r in
      (
        record q { channels = set q.channels q.buf_r s' },
        rw (at, e) refl,
        (
          l,
          segments,
          record {
            shared = h.shared;
            size_is = h.size_is;
            writer = h.writer ∙ sym (length-set q.channels q.buf_r s');
            buffers = write s' l r';
            waits = h.waits;
          },
          refl,
        ),
      )

  -- The only buffer.
  pub open_at :
      {n : ℕ} {gone : Bool} {channels : List (Channel A)} (c : ℕ) (l : List A)
      → Buffers n gone channels c l []
      → BufferAt n channels c (record { items = l; closed = gone })
        × ((s : Channel A)
            → Represents n (record { items = l; closed = gone }) s
            → Buffers n gone (set channels c s) c l [])
  open_at {channels} c l (senders at size) = (
    at,
    λ s r.
        senders (s, get_elem?-set_self channels c s (omega (arith, size)), r)
          (size ∙ sym (length-set channels c s)),
  )

  nothing_left :
      {n : ℕ} {gone : Bool} {q : Queue A} {inuse : Nodes.Queue ℕ} (h : Holds n gone [] [] q)
      (s : Channel A)
      → Buffers n gone (set q.channels q.buf_r s) q.buf_r [] []
      → Waits gone [] inuse
      → Holds n gone [] [] (record q { channels = set q.channels q.buf_r s; inuse = inuse })
  nothing_left {q} h s b w = record {
    shared = h.shared;
    size_is = h.size_is;
    writer = h.writer ∙ sym (length-set q.channels q.buf_r s);
    buffers = b;
    waits = w;
  }

  -- There is no item in the only buffer.
  receive_nothing :
      {n : ℕ} (gone : Bool) {q : Queue A} → Holds n gone [] [] q → Received n gone [] q
  unfolding try_dequeue dequeue_next
  receive_nothing false {q} h =
      let ((s, at, r), write) = open_at q.buf_r [] h.buffers in
      let (s', e, r') = try_dequeue_refines r in
      (
        record q { channels = set q.channels q.buf_r s' },
        rw (at, e) refl,
        ([], [], nothing_left h s' (write s' r') h.waits, refl),
      )
  receive_nothing true {q} h =
      let ((s, at, r), write) = open_at q.buf_r [] h.buffers in
      let (s', e, r') = try_dequeue_refines r in
      let (inuse', f, waits') = Waits-dequeue true [] h.waits in
      (
        record q { channels = set q.channels q.buf_r s'; inuse = inuse' },
        rw (at, e, f) refl,
        ([], [], nothing_left h s' (write s' r') waits', refl),
      )

  -- The sender has left the receiver's buffer, which has no item, for another one, which has.
  receive_next :
      {n : ℕ} {gone : Bool} (x : A) (l : List A) (segments : List (List A)) {q : Queue A}
      → Holds n gone [] ((x ∷ l) ∷ segments) q
      → Received n gone (x ∷ (l ++ concat segments)) q
  unfolding try_dequeue dequeue_next leave
  receive_next {n} {gone} x l segments {q} h = elim h.buffers [
    | left_behind (s, at, r) filled more ↦
        let (s1, e, r1) = try_dequeue_refines r in
        let size1 = length-set q.channels q.buf_r s1 in
        let (inuse', f, waits') =
          Waits-dequeue gone (range (suc q.buf_r) (suc (length segments))) h.waits in
        let c1 = set q.channels q.buf_r s1 in
        let lt = Buffers-length (suc q.buf_r) segments more in
        let found1 = get_elem?-set_self q.channels q.buf_r s1 (omega (arith, lt)) in
        let c2 = set c1 q.buf_r (Bounded.close s1) in
        let size2 = length-set c1 q.buf_r (Bounded.close s1) in
        let same_after : (i : ℕ) → suc q.buf_r ≤ i → get_elem? c2 i ≡ get_elem? q.channels i =
          λ i le.
            get_elem?-set_ne c1 q.buf_r i _ (omega arith)
            ∙ get_elem?-set_ne q.channels q.buf_r i s1 (omega arith) in
        let more2 = Buffers-same (suc q.buf_r) segments same_after (size2 ∙ size1) more in
        let (b, (s2, at2, r2), write) = First-BufferAt (suc q.buf_r) (x ∷ l) segments more2 in
        let (s3, e3, r3) = try_dequeue_refines r2 in
        (
          record q { buf_r = suc q.buf_r; inuse = inuse'; channels = set c2 (suc q.buf_r) s3 },
          rw (at, e, f, found1, at2, e3) refl,
          (
            l,
            segments,
            record {
              shared = h.shared;
              size_is = h.size_is;
              writer = h.writer ∙ sym (length-set c2 (suc q.buf_r) s3 ∙ size2 ∙ size1);
              buffers = write s3 l r3;
              waits = waits';
            },
            refl,
          ),
        )
  ]

  receive_from :
      {n : ℕ} {gone : Bool} (l : List A) (segments : List (List A)) {q : Queue A}
      → Holds n gone l segments q
      → Received n gone (l ++ concat segments) q
  receive_from (x ∷ l) segments h = receive_here x l segments h
  receive_from {gone} [] [] h = receive_nothing gone h
  receive_from [] ((x ∷ l) ∷ segments) h = receive_next x l segments h
  receive_from [] ([] ∷ segments) h = elim h.buffers [
    | left_behind at filled more ↦ absurd (filled refl)
  ]

  -- A receive answers as an unbounded FIFO does: a closed one is first emptied.
  pub try_dequeue_refines_chain :
      {n : ℕ} {gone : Bool} {items : List A} {q : Queue A}
      → Contains n gone items q
      → Received n gone items q
  try_dequeue_refines_chain {n} {gone} {items} {q} (l, segments, h, e) =
      subst (λ i. Received n gone i q) (sym e) (receive_from l segments h)
