-- ===== src/Spsc/Unbounded/Repr.antt =====
-- How the chain of buffers of src/queues/spsc/unbounded.rs holds the items: the receiver's buffer
-- first, the ones that it has not been told of yet behind it, the sender's last.
use nolock.Prelude.{
  ℕ, zero, suc, ◌+◌, ◌<◌, ◌≤◌, ◌≡◌, ◌≢◌, refl, sym, ap, ◌∙◌, subst, Bool, true, some, List, [], ◌∷◌,
  ◌++◌, length, get_elem?, arith, append_assoc, append-nil,
}
use nolock.Spsc.Bounded.{Channel}
use nolock.Spsc.Bounded.Fifo.{Fifo}
use nolock.Spsc.Bounded.Refine.{Represents}
use nolock.Spsc.Unbounded.{Queue}
use nolock.Spsc.Unbounded.Waits.{Waits}

-- The buffers from `c` on, `k` of them.
abbrev pub range : ℕ → ℕ → List ℕ
range c zero = []
range c (suc k) = c ∷ range (suc c) k

pub range-snoc : (c k : ℕ) → range c (suc k) ≡ range c k ++ ((c + k) ∷ [])
range-snoc c zero = ap (λ n. n ∷ []) (omega arith)
range-snoc c (suc k) =
    let e : suc c + k ≡ c + suc k = omega arith in
    ap (◌∷◌ c) (range-snoc (suc c) k ∙ ap (λ n. range (suc c) k ++ (n ∷ [])) e)

module _ {ℓ} {A : Type ℓ} where
  abbrev pub concat : List (List A) → List A
  concat [] = []
  concat (l ∷ segments) = l ++ concat segments

  -- The buffer `c` is there and stands for the queue `f`.
  abbrev pub BufferAt : ℕ → List (Channel A) → ℕ → Fifo A → Type ℓ
  BufferAt n channels c f = (s : Channel A) × (get_elem? channels c ≡ some s) × Represents n f s

  -- The buffers from `c` on hold the segments: each but the last one is closed, the last one where
  -- `gone` says so, and each but the first has an item.
  pub data Buffers (n : ℕ) (gone : Bool) (channels : List (Channel A))
      : ℕ → List A → List (List A) → Type ℓ where
    senders :
        {c : ℕ} {l : List A}
        → BufferAt n channels c (record { items = l; closed = gone })
        → suc c ≡ length channels
        → Buffers n gone channels c l []
    left_behind :
        {c : ℕ} {l m : List A} {segments : List (List A)}
        → BufferAt n channels c (record { items = l; closed = true })
        → m ≢ []
        → Buffers n gone channels (suc c) m segments
        → Buffers n gone channels c l (m ∷ segments)

  -- The queue holds the segments `l ∷ segments`.
  pub record Holds (n : ℕ) (gone : Bool) (l : List A) (segments : List (List A)) (q : Queue A)
      : Type ℓ where
    pub shared : q.closed ≡ gone
    pub size_is : q.buffer_size ≡ n
    pub writer : suc q.buf_w ≡ length q.channels
    pub buffers : Buffers n gone q.channels q.buf_r l segments
    pub waits : Waits gone (range (suc q.buf_r) (length segments)) q.inuse

  -- The queue holds the items, in whichever segments.
  abbrev pub Contains : ℕ → Bool → List A → Queue A → Type ℓ
  Contains n gone items q =
      (l : List A) × (segments : List (List A)) × Holds n gone l segments q
      × (items ≡ l ++ concat segments)

  -- The last segment, those before it, and the segments with others in place of the last one.
  abbrev pub last : List A → List (List A) → List A
  last l [] = l
  last l (m ∷ segments) = last m segments

  abbrev pub before : List A → List (List A) → List A
  before l [] = []
  before l (m ∷ segments) = l ++ before m segments

  abbrev pub first_of : List A → List (List A) → List A → List A
  first_of l [] k = k
  first_of l (m ∷ segments) k = l

  abbrev pub rest_of : List (List A) → List A → List (List A) → List (List A)
  rest_of [] k more = more
  rest_of (m ∷ segments) k more = first_of m segments k ∷ rest_of segments k more

  pub before-last :
      (l : List A) (segments : List (List A))
      → l ++ concat segments ≡ before l segments ++ last l segments
  before-last l [] = append-nil l
  before-last l (m ∷ segments) = ap (◌++◌ l) (before-last m segments) ∙ sym (append_assoc l _ _)

  pub concat-rest_of :
      (l : List A) (segments : List (List A)) (k : List A) (more : List (List A))
      → first_of l segments k ++ concat (rest_of segments k more)
        ≡ before l segments ++ (k ++ concat more)
  concat-rest_of l [] k more = refl
  concat-rest_of l (m ∷ segments) k more =
      ap (◌++◌ l) (concat-rest_of m segments k more) ∙ sym (append_assoc l _ _)

  pub length-rest_of :
      (segments : List (List A)) (k : List A) (more : List (List A))
      → length (rest_of segments k more) ≡ length segments + length more
  length-rest_of [] k more = omega arith
  length-rest_of (m ∷ segments) k more = omega (arith, length-rest_of segments k more)

  pub Buffers-length :
      {n : ℕ} {gone : Bool} {channels : List (Channel A)} (c : ℕ) {l : List A}
      (segments : List (List A))
      → Buffers n gone channels c l segments
      → c + suc (length segments) ≡ length channels
  Buffers-length c [] (senders at size) = omega (arith, size)
  Buffers-length c (m ∷ segments) (left_behind at filled more) =
      omega (arith, Buffers-length (suc c) segments more)

  -- The buffer of the sender.
  pub last-BufferAt :
      {n : ℕ} {gone : Bool} {channels : List (Channel A)} (c w : ℕ) (l : List A)
      (segments : List (List A))
      → Buffers n gone channels c l segments
      → suc w ≡ length channels
      → BufferAt n channels w (record { items = last l segments; closed = gone })
  last-BufferAt {n} {gone} {channels} c w l [] (senders at size) e =
      let same : c ≡ w = omega (arith, size) in
      subst (λ i. BufferAt n channels i (record { items = l; closed = gone })) same at
  last-BufferAt c w l (m ∷ segments) (left_behind at filled more) e =
      last-BufferAt (suc c) w m segments more e

  -- Only the buffers from `c` on matter.
  pub Buffers-same :
      {n : ℕ} {gone : Bool} {channels channels' : List (Channel A)} (c : ℕ) {l : List A}
      (segments : List (List A))
      → ((i : ℕ) → c ≤ i → get_elem? channels' i ≡ get_elem? channels i)
      → length channels' ≡ length channels
      → Buffers n gone channels c l segments
      → Buffers n gone channels' c l segments
  Buffers-same c [] same sizes (senders (s, e, r) size) =
      senders (s, same c (omega arith) ∙ e, r) (size ∙ sym sizes)
  Buffers-same c (m ∷ segments) same sizes (left_behind (s, e, r) filled more) =
      left_behind (s, same c (omega arith) ∙ e, r) filled
        (Buffers-same (suc c) segments (λ i le. same i (omega arith)) sizes more)

  first_of-filled :
      (m : List A) (segments : List (List A)) (k : List A)
      → m ≢ []
      → (last m segments ≢ [] → k ≢ [])
      → first_of m segments k ≢ []
  first_of-filled m [] k filled fill = fill filled
  first_of-filled m (m' ∷ segments) k filled fill = filled

  -- Others in place of the sender's buffer, where the buffers before it stay.
  pub replace-Buffers :
      {n : ℕ} {gone gone' : Bool} {channels channels' : List (Channel A)} (c w : ℕ) {l : List A}
      (segments : List (List A)) {k : List A} {more : List (List A)}
      → suc w ≡ length channels
      → ((i : ℕ) → i < w → get_elem? channels' i ≡ get_elem? channels i)
      → (last l segments ≢ [] → k ≢ [])
      → Buffers n gone channels c l segments
      → Buffers n gone' channels' w k more
      → Buffers n gone' channels' c (first_of l segments k) (rest_of segments k more)
  replace-Buffers {n} {gone'} {channels'} c w [] {k} {more} e same fill (senders at size) b =
      let here : w ≡ c = omega (arith, size) in
      subst (λ i. Buffers n gone' channels' i k more) here b
  replace-Buffers c w (m ∷ segments) {k} e same fill (left_behind (s, f, r) filled rest) b =
      left_behind (s, same c (omega (arith, Buffers-length (suc c) segments rest, e)) ∙ f, r)
        (first_of-filled m segments k filled fill)
        (replace-Buffers (suc c) w segments e same fill rest b)
