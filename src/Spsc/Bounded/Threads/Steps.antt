-- ===== src/Spsc/Bounded/Threads/Steps.antt =====
-- What each thread finds in the buffer, and what its steps must show.
use nolock.Prelude.{
  ℕ, ◌+◌, ◌%◌, ◌<◌, ◌≡◌, refl, sym, ◌∙◌, ap, Bool, true, false, Option, some, List, [], ◌∷◌, ◌++◌,
  length, get_elem?, arith, mod-add-zero, mod-add_self, if◌then◌else◌, ◌==◌, length-append,
  get_elem?-append_lt, get_elem?-append_last, get_elem?-none, if-eq, if-ne, ◌≤◌, ℕ_discrete, dec_lt,
}
use nolock.Spsc.Node
use nolock.Spsc.Node.{Node}
use nolock.Spsc.Bounded.Threads.{Producer, written, Consumer, ready, taken, System}
use nolock.Spsc.Bounded.Threads.Inv.{behind, cell, front, expected, ConsumerOk, Inv}

module _ {ℓ} {A : Type ℓ} where
  -- A step that does not fault and keeps the invariant.
  abbrev pub Keeps : ℕ → Option (System A) → Type ℓ
  Keeps n o = (t : System A) × (q : List A) × (o ≡ some t) × Inv n q t

  -- An item shows its flag, also while it is being taken.
  front_set : (c : Consumer A) (x : A) → (front c (some x)).is_set ≡ true
  front_set (taken y) x = refl
  front_set _ x = refl

module _ {ℓ} {A : Type ℓ} {n : ℕ} {q : List A} {s : System A} (h : Inv n q s) where
  pub at_tail : get_elem? s.chan.buffer s.chan.tail ≡ some (expected q s.producer s.consumer 0)
  at_tail =
      ap (get_elem? s.chan.buffer) (sym (mod-add-zero n s.chan.tail h.slots.start))
      ∙ h.slots.at 0 (omega (arith, h.slots.start))

  pub at_head : length q < n → get_elem? s.chan.buffer s.chan.head ≡ some (behind s.producer)
  at_head lt = ap (get_elem? s.chan.buffer) h.head_at ∙ h.slots.at (length q) lt ∙ ground arith

  pub head-eq-tail : length q ≡ n → s.chan.head ≡ s.chan.tail
  head-eq-tail e =
      h.head_at ∙ ap (λ k. (s.chan.tail + k) % n) e ∙ mod-add_self n s.chan.tail h.slots.start

-- Where the queue is full the producer finds the first item.
pub at_head_full {ℓ} :
    {A : Type ℓ} {n : ℕ} (q : List A) {s : System A} (h : Inv n q s)
    → length q ≡ n
    → (e : Node A) × (get_elem? s.chan.buffer s.chan.head ≡ some e) × (e.is_set ≡ true)
at_head_full [] h e = absurd (omega (arith, h.slots.start))
at_head_full (x ∷ q) {s} h e = (
  front s.consumer (some x),
  ap (get_elem? s.chan.buffer) (head-eq-tail h e) ∙ at_tail h ∙ ground arith,
  front_set s.consumer x,
)

module _ {ℓ} {A : Type ℓ} where
  get_elem?-append_first :
      (q : List A) (x y : A) → get_elem? q 0 ≡ some y → get_elem? (q ++ (x ∷ [])) 0 ≡ some y
  get_elem?-append_first [] x y e = cc
  get_elem?-append_first (z ∷ q) x y e = e

  -- The consumer's place still fits when an item joins.
  pub ConsumerOk-append :
      (q : List A) (x : A) (c : Consumer A) → ConsumerOk q c → ConsumerOk (q ++ (x ∷ [])) c
  ConsumerOk-append q x ready (y, e) = (y, get_elem?-append_first q x y e)
  ConsumerOk-append q x (taken y) e = get_elem?-append_first q x y e
  ConsumerOk-append q x _ e = tt

  front-nil : (x : A) (c : Consumer A) → ConsumerOk {A = A} [] c → front c (some x) ≡ Node.filled x
  front-nil x (taken y) e = cc
  front-nil x _ e = refl

  -- What the entries hold when the flag of the entry behind the last item is set: at that entry,
  -- before it, and behind it.
  append_last :
      (q : List A) (x : A) (c : Consumer A)
      → ConsumerOk q c
      → Node.filled x ≡ expected (q ++ (x ∷ [])) Producer.resting c (length q)
  append_last [] x c k = sym (front-nil x c k)
  append_last (y ∷ q) x c k = sym (
      if-ne (length (y ∷ q)) (length (y ∷ q ++ (x ∷ []))) Node.new
        (omega (arith, length-append q (x ∷ [])))
      ∙ if-ne (length (y ∷ q)) 0 (front c (some y)) (omega arith)
      ∙ ap cell (get_elem?-append_last q x))

  append_lt :
      (q : List A) (x : A) (c : Consumer A) (i : ℕ)
      → i < length q
      → expected q (written x) c i ≡ expected (q ++ (x ∷ [])) Producer.resting c i
  append_lt [] x c i lt = elim lt [ ]
  append_lt (y ∷ q) x c i lt =
      if-ne i (length (y ∷ q)) (behind (written x)) (omega arith)
      ∙ ap (λ o. if i == 0 then front c (some y) else cell o)
          (sym (get_elem?-append_lt (y ∷ q) (x ∷ []) i lt))
      ∙ sym
          (if-ne i (length (y ∷ q ++ (x ∷ []))) Node.new (omega (arith, length-append q (x ∷ []))))

  append_gt :
      (q : List A) (x : A) (c : Consumer A) (i : ℕ)
      → length q < i
      → expected q (written x) c i ≡ expected (q ++ (x ∷ [])) Producer.resting c i
  append_gt q x c i gt =
      if-ne i (length q) (behind (written x)) (omega arith)
      ∙ beyond q (omega arith)
      ∙ sym (
          same (i == length (q ++ (x ∷ [])))
            (beyond (q ++ (x ∷ [])) (omega (arith, length-append q (x ∷ [])))))
    where
      beyond :
          (l : List A)
          → length l ≤ i
          → (if i == 0 then front c (get_elem? l 0) else cell (get_elem? l i)) ≡ Node.new
      beyond l le =
          if-ne i 0 (front c (get_elem? l 0)) (omega arith) ∙ ap cell (get_elem?-none l i le)

      same : (b : Bool) {n : Node A} → n ≡ Node.new → (if b then Node.new else n) ≡ Node.new
      same true e = refl
      same false e = e

  pub expected-append :
      (q : List A) (x : A) (c : Consumer A) (i : ℕ)
      → ConsumerOk q c
      → (if i == length q then Node.filled x else expected q (written x) c i)
        ≡ expected (q ++ (x ∷ [])) Producer.resting c i
  expected-append q x c i k = elim (ℕ_discrete i (length q)) [
    | yes e ↦ rw e (
        if-eq (length q) (length q) (expected q (written x) c (length q)) refl
        ∙ append_last q x c k)
    | no ne ↦ if-ne i (length q) (Node.filled x) ne ∙ elim (dec_lt i (length q)) [
      | yes lt ↦ append_lt q x c i lt
      | no ge ↦ append_gt q x c i (omega arith)
    ]
  ]
