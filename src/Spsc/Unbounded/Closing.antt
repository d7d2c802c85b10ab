-- ===== src/Spsc/Unbounded/Closing.antt =====
-- What the receiver of src/queues/spsc/unbounded.rs is told when the sender leaves, and the sender when the receiver does.
use nolock.Prelude.{
  ℕ, suc, ◌≡◌, refl, sym, ◌∙◌, Bool, true, false, not, some, List, [], ◌∷◌, ◌++◌, length, set,
  arith, err, ◌&&◌,
}
use nolock.Queues.{EnqueueError}
use nolock.Spsc.Bounded
use nolock.Spsc.Bounded.{Channel}
use nolock.Spsc.Unbounded.{Queue, leave, receiver_is_closed, enqueue, drop_receiver}
use nolock.Spsc.Unbounded.Waits.{Waits-has_next, Waits-drop_receiver}
use nolock.Spsc.Unbounded.Receiving.{open_at, First-BufferAt}
use nolock.Spsc.Unbounded.Repr.{range, concat, left_behind, Holds, Contains}

module _ {ℓ} {A : Type ℓ} where
  abbrev pub several : List (List A) → Bool
  several [] = false
  several (m ∷ segments) = true

  closed_at :
      {n : ℕ} {gone : Bool} (l : List A) (segments : List (List A)) {q : Queue A}
      → Holds n gone l segments q
      → receiver_is_closed q ≡ some (not (several segments) && gone)
  unfolding receiver_is_closed Bounded.is_closed
  closed_at {gone} l [] {q} h =
      let ((s, at, r), write) = open_at q.buf_r l h.buffers in
      ground (arith, at, r.flag, Waits-has_next gone [] h.waits)
  closed_at {gone} l (m ∷ segments) {q} h = elim h.buffers [
    | left_behind (s, at, r) filled more ↦
        let told = Waits-has_next gone (range (suc q.buf_r) (suc (length segments))) h.waits in
        ground (arith, at, r.flag, told)
  ]

  closed_says :
      (gone : Bool) (l : List A) (segments : List (List A)) {n : ℕ} {q : Queue A}
      → Holds n gone l segments q
      → (((not (several segments) && gone) ≡ true) → gone ≡ true)
        × (l ++ concat segments ≡ [] → gone ≡ true → (not (several segments) && gone) ≡ true)
  closed_says gone l [] h = (λ e. e, λ e f. f)
  closed_says gone (x ∷ l) (m ∷ segments) h = (λ e. cc, λ e f. cc)
  closed_says gone [] ((x ∷ m) ∷ segments) h = (λ e. cc, λ e f. cc)
  closed_says gone [] ([] ∷ segments) h = elim h.buffers [
    | left_behind at filled more ↦ absurd (filled refl)
  ]

  -- Where the receiver says closed, the sender is gone; and it does so once the sender is gone and no
  -- item is left.
  pub receiver_is_closed_lem :
      {n : ℕ} {gone : Bool} {items : List A} {q : Queue A}
      → Contains n gone items q
      → (b : Bool) × (receiver_is_closed q ≡ some b)
        × (b ≡ true → gone ≡ true)
        × (items ≡ [] → gone ≡ true → b ≡ true)
  receiver_is_closed_lem {gone} (l, segments, h, e) =
      let (f, g) = closed_says gone l segments h in
      (_, closed_at l segments h, f, λ z. g (sym e ∙ z))

  -- Where the receiver leaves an open queue, every later send gives its item back.
  pub drop_receiver_lem :
      {n : ℕ} {items : List A} {q : Queue A} (fuel : ℕ)
      → Contains n false items q
      → (q' : Queue A) × (drop_receiver fuel q ≡ some q')
        × ((x : A) → enqueue q' x ≡ some (err (x, EnqueueError.closed), q'))
  unfolding drop_receiver leave enqueue
  drop_receiver_lem {q} fuel (l, segments, h, e) =
      let (b, (s, at, r), write) = First-BufferAt _ l segments h.buffers in
      let (inuse', f) = Waits-drop_receiver fuel _ h.waits in
      (
        record q {
          closed = true;
          channels = set q.channels q.buf_r (Bounded.close s);
          inuse = inuse';
        },
        rw (at, f) refl,
        λ x. refl,
      )
