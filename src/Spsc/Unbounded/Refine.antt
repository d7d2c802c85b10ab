-- ===== src/Spsc/Unbounded/Refine.antt =====
-- What a send on the queue of src/queues/spsc/unbounded.rs answers, and the drop of its sender.
use nolock.Prelude.{
  ℕ, suc, ◌≡◌, refl, sym, ap, ◌∙◌, subst, true, false, some, List, [], ◌∷◌, ◌++◌, length, set,
  arith, ok, err, append-nil, get_elem?-set_self, get_elem?-set_ne, length-set,
}
use nolock.Queues.{EnqueueError}
use nolock.Spsc.Bounded
use nolock.Spsc.Bounded.{Channel}
use nolock.Spsc.Bounded.Refine.{close-Represents}
use nolock.Spsc.Unbounded.{Queue, leave, enqueue, drop_sender}
use nolock.Spsc.Unbounded.Waits.{Waits, Waits-drop_sender}
use nolock.Spsc.Unbounded.Sending.{enqueue_refines_at}
use nolock.Spsc.Unbounded.Repr.{
  range, senders, Contains, last, before, first_of, rest_of, before-last, concat-rest_of,
  length-rest_of, last-BufferAt, replace-Buffers,
}

module _ {ℓ} {A : Type ℓ} where
  module _ {n : ℕ} {items : List A} {q : Queue A} where
    pub enqueue_refines_open :
        (x : A)
        → Contains n false items q
        → (q' : Queue A) × (enqueue q x ≡ some (ok tt, q'))
          × Contains n false (items ++ (x ∷ [])) q'
    enqueue_refines_open x (l, segments, h, e) =
        let (q', f, c) = enqueue_refines_at h x in
        (q', f, subst (λ i. Contains n false (i ++ (x ∷ [])) q') (sym e) c)

    -- Once a half is gone a send gives its item back, and changes nothing.
    pub enqueue_refines_gone :
        (x : A) → Contains n true items q → enqueue q x ≡ some (err (x, EnqueueError.closed), q)
    unfolding enqueue
    enqueue_refines_gone x (l, segments, h, e) = ground (arith, h.shared)

    -- The sender leaves, and the items stay.
    pub drop_sender_refines :
        (fuel : ℕ)
        → Contains n false items q
        → (q' : Queue A) × (drop_sender fuel q ≡ some q') × Contains n true items q'
    unfolding drop_sender leave
    drop_sender_refines fuel (l, segments, h, e) =
        let (s, at, r) = last-BufferAt q.buf_r q.buf_w l segments h.buffers h.writer in
        let (inuse', f, waits') = Waits-drop_sender fuel _ h.waits in
        let channels' = set q.channels q.buf_w (Bounded.close s) in
        let sizes = length-set q.channels q.buf_w (Bounded.close s) in
        let k = last l segments in
        let same : length segments ≡ length (rest_of segments k []) =
          omega (arith, length-rest_of segments k []) in
        (
          record q { closed = true; channels = channels'; inuse = inuse' },
          rw (at, f) refl,
          (
            first_of l segments k,
            rest_of segments k [],
            record {
              shared = refl;
              size_is = h.size_is;
              writer = h.writer ∙ sym sizes;
              buffers =
                  replace-Buffers q.buf_r q.buf_w segments h.writer
                    (λ i lt. get_elem?-set_ne q.channels q.buf_w i _ (omega arith)) (λ f. f)
                    h.buffers
                    (senders
                      (
                        Bounded.close s,
                        get_elem?-set_self q.channels q.buf_w _ (omega (arith, h.writer)),
                        close-Represents r,
                      )
                      (h.writer ∙ sym sizes));
              waits = subst (λ m. Waits true (range (suc q.buf_r) m) inuse') same waits';
            },
            e
                ∙ before-last l segments
                ∙ sym
                    (concat-rest_of l segments k [] ∙ ap (◌++◌ (before l segments)) (append-nil k)),
          ),
        )
