-- ===== src/Spsc/Unbounded/Sending.antt =====
-- What a send of src/queues/spsc/unbounded.rs does to the items, and the drop of the sender.
use nolock.Prelude.{
  ℕ, suc, ◌+◌, ◌^◌, ◌<◌, ◌≡◌, ◌≢◌, refl, sym, ap, ◌∙◌, subst, false, some, List, [], ◌∷◌, ◌++◌,
  length, get_elem?, set, arith, append_assoc, ok, err, append-nil, ℕ_discrete, get_elem?-set_self,
  get_elem?-set_ne, get_elem?-append_lt, length-append, length-set, get_elem?-append_last,
}
use nolock.Queues.{full}
use nolock.Spsc.Bounded
use nolock.Spsc.Bounded.{Channel}
use nolock.Spsc.Bounded.Fifo
use nolock.Spsc.Bounded.Fifo.{Fifo}
use nolock.Spsc.Bounded.Refine.{Represents, queue-Represents, try_enqueue_refines, close-Represents}
use nolock.Spsc.Nodes
use nolock.Spsc.Nodes.Sending.{new-Stands}
use nolock.Spsc.Unbounded.{Queue, queue, leave, next_w, enqueue_next, enqueue}
use nolock.Spsc.Unbounded.Waits.{Waits, Waits-enqueue}
use nolock.Spsc.Unbounded.Repr.{
  range, range-snoc, concat, Buffers, senders, left_behind, Holds, Contains, last, before, first_of,
  rest_of, before-last, concat-rest_of, length-rest_of, Buffers-length, last-BufferAt,
  replace-Buffers,
}

module _ {ℓ} {A : Type ℓ} where
  pub queue-Contains : Contains 64 false [] (queue {A = A})
  unfolding queue Nodes.new
  queue-Contains = (
    [],
    [],
    record {
      shared = refl;
      size_is = refl;
      writer = refl;
      buffers = senders (_, refl, queue-Represents 64 (omega arith) (omega arith)) refl;
      waits = (Nodes.new, new-Stands, refl);
    },
    refl,
  )

  -- A new item behind the last segment.
  extended :
      (l : List A) (segments : List (List A)) (k : List A) (more : List (List A)) (x : A)
      → k ++ concat more ≡ last l segments ++ (x ∷ [])
      → (l ++ concat segments) ++ (x ∷ [])
        ≡ first_of l segments k ++ concat (rest_of segments k more)
  extended l segments k more x e =
      ap (λ m. m ++ (x ∷ [])) (before-last l segments)
      ∙ append_assoc (before l segments) (last l segments) (x ∷ [])
      ∙ ap (◌++◌ (before l segments)) (sym e)
      ∙ sym (concat-rest_of l segments k more)

  snoc-filled : (l : List A) (x : A) → l ++ (x ∷ []) ≢ []
  snoc-filled [] x e = cc
  snoc-filled (y ∷ l) x e = cc

  module _ {n : ℕ} {l : List A} {segments : List (List A)} {q : Queue A}
      (h : Holds n false l segments q) (x : A) where
    -- The sender's buffer takes the item.
    enqueue_room :
        {s s' : Channel A}
        → get_elem? q.channels q.buf_w ≡ some s
        → Bounded.try_enqueue s x ≡ some (ok tt, s')
        → Represents n (record { items = last l segments ++ (x ∷ []); closed = false }) s'
        → (q' : Queue A) × (enqueue q x ≡ some (ok tt, q'))
          × Contains n false ((l ++ concat segments) ++ (x ∷ [])) q'
    unfolding enqueue
    enqueue_room {s} {s'} at e r =
        let k = last l segments ++ (x ∷ []) in
        let channels' = set q.channels q.buf_w s' in
        let sizes = length-set q.channels q.buf_w s' in
        (
          record q { channels = channels' },
          ground (arith, h.shared, at, e),
          (
            first_of l segments k,
            rest_of segments k [],
            record {
              shared = h.shared;
              size_is = h.size_is;
              writer = h.writer ∙ sym sizes;
              buffers =
                  replace-Buffers q.buf_r q.buf_w segments h.writer
                    (λ i lt. get_elem?-set_ne q.channels q.buf_w i s' (omega arith))
                    (λ f. snoc-filled (last l segments) x) h.buffers
                    (senders
                      (s', get_elem?-set_self q.channels q.buf_w s' (omega (arith, h.writer)), r)
                      (h.writer ∙ sym sizes));
              waits =
                  subst (λ m. Waits false (range (suc q.buf_r) m) q.inuse)
                    (omega (arith, length-rest_of segments k [])) h.waits;
            },
            extended l segments k [] x (append-nil k),
          ),
        )

    -- The sender's buffer is full: the item goes into a new one.
    enqueue_full :
        {s s1 : Channel A}
        → 0 < n
        → n < 2 ^ 64
        → get_elem? q.channels q.buf_w ≡ some s
        → length (last l segments) ≡ n
        → Bounded.try_enqueue s x ≡ some (err (x, full), s1)
        → Represents n (record { items = last l segments; closed = false }) s1
        → (q' : Queue A) × (enqueue q x ≡ some (ok tt, q'))
          × Contains n false ((l ++ concat segments) ++ (x ∷ [])) q'
    unfolding enqueue enqueue_next next_w leave
    enqueue_full {s} {s1} pos within at all e r =
        let c1 = set q.channels q.buf_w s1 in
        let size1 = length-set q.channels q.buf_w s1 in
        let c2 = c1 ++ (Bounded.queue n ∷ []) in
        let size2 = length-append c1 (Bounded.queue n ∷ []) in
        let found1 : get_elem? c2 q.buf_w ≡ some s1 =
          get_elem?-append_lt c1 _ q.buf_w (omega (arith, h.writer, size1))
          ∙ get_elem?-set_self q.channels q.buf_w s1 (omega (arith, h.writer)) in
        let c3 = set c2 q.buf_w (Bounded.close s1) in
        let size3 = length-set c2 q.buf_w (Bounded.close s1) in
        let found2 : get_elem? c3 (length c1) ≡ some (Bounded.queue n) =
          get_elem?-set_ne c2 q.buf_w (length c1) _ (omega (arith, h.writer, size1))
          ∙ get_elem?-append_last c1 (Bounded.queue n) in
        let (s2, f, r2) = try_enqueue_refines (queue-Represents {A = A} n pos within) x in
        let new_room =
          Fifo.push_room n (record { items = []; closed = false }) x refl (omega arith) in
        let c4 = set c3 (length c1) s2 in
        let size4 = length-set c3 (length c1) s2 in
        let (inuse', told, waits') = Waits-enqueue _ (length c1) h.waits in
        (
          record q { buf_w = length c1; inuse = inuse'; channels = c4 },
          ground (
            arith,
            h.shared,
            h.size_is,
            at,
            e,
            told,
            found1,
            found2,
            f ∙ ap (λ r. some (r.0, s2)) new_room,
          ),
          (
            first_of l segments (last l segments),
            rest_of segments (last l segments) ((x ∷ []) ∷ []),
            record {
              shared = h.shared;
              size_is = h.size_is;
              writer = omega (arith, size2, size3, size4);
              buffers =
                  replace-Buffers q.buf_r q.buf_w segments h.writer
                    (λ i lt.
                      get_elem?-set_ne c3 (length c1) i s2 (omega (arith, size1, h.writer))
                      ∙ get_elem?-set_ne c2 q.buf_w i _ (omega arith)
                      ∙ get_elem?-append_lt c1 _ i (omega (arith, size1, h.writer))
                      ∙ get_elem?-set_ne q.channels q.buf_w i s1 (omega arith))
                    (λ f. f) h.buffers
                    (left_behind
                      (
                        Bounded.close s1,
                        get_elem?-set_ne c3 (length c1) q.buf_w s2 (omega (arith, size1, h.writer))
                            ∙ get_elem?-set_self c2 q.buf_w _
                                (omega (arith, size1, size2, h.writer)),
                        close-Represents r,
                      )
                      (snoc-filled [] x)
                      (subst (λ c. Buffers n false c4 c (x ∷ []) []) here
                        (senders
                          (
                            s2,
                            get_elem?-set_self c3 (length c1) s2 (omega (arith, size2, size3)),
                            rw new_room at r2,
                          )
                          (omega (arith, size2, size3, size4)))));
              waits = subst (λ ids. Waits false ids inuse') more_ids waits';
            },
            extended l segments (last l segments) ((x ∷ []) ∷ []) x refl,
          ),
        )
      where
        here : length (set q.channels q.buf_w s1) ≡ suc q.buf_w
        here = length-set q.channels q.buf_w s1 ∙ sym h.writer

        more_ids :
            range (suc q.buf_r) (length segments) ++ (length (set q.channels q.buf_w s1) ∷ [])
            ≡ range (suc q.buf_r) (length (rest_of segments (last l segments) ((x ∷ []) ∷ [])))
        more_ids =
            let m = length segments in
            let e1 : length (set q.channels q.buf_w s1) ≡ suc q.buf_r + m =
              omega (arith, here, h.writer, Buffers-length q.buf_r segments h.buffers) in
            let e2 : suc m ≡ length (rest_of segments (last l segments) ((x ∷ []) ∷ [])) =
              omega (arith, length-rest_of segments (last l segments) ((x ∷ []) ∷ [])) in
            ap (λ c. range (suc q.buf_r) m ++ (c ∷ [])) e1
            ∙ sym (range-snoc (suc q.buf_r) m)
            ∙ ap (range (suc q.buf_r)) e2

    -- A send never fails on an open queue, and the item goes behind the others.
    pub enqueue_refines_at :
        (q' : Queue A) × (enqueue q x ≡ some (ok tt, q'))
        × Contains n false ((l ++ concat segments) ++ (x ∷ [])) q'
    enqueue_refines_at =
        let (s, at, r) = last-BufferAt q.buf_r q.buf_w l segments h.buffers h.writer in
        let (s', e, r') = try_enqueue_refines r x in
        let f : Fifo A = record { items = last l segments; closed = false } in
        elim (ℕ_discrete (length (last l segments)) n) [
          | yes all ↦
              let full_at = Fifo.push_full n f x refl all in
              enqueue_full (omega (arith, r.holds.start)) r.within at all
                (e ∙ ap (λ r. some (r.0, s')) full_at) (rw full_at at r')
          | no some_room ↦
              let room_at = Fifo.push_room n f x refl some_room in
              enqueue_room at (e ∙ ap (λ r. some (r.0, s')) room_at) (rw room_at at r')
        ]
