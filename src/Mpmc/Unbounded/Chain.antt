-- ===== src/Mpmc/Unbounded/Chain.antt =====
-- Which items the linked buffers of src/queues/mpmc/unbounded.rs hold.
use nolock.Prelude.{
  ℕ, suc, ◌+◌, ◌*◌, ◌<◌, ◌≤◌, ◌≡◌, refl, sym, ap, subst, ◌∙◌, Bool, true, Option, none, some, List,
  [], ◌++◌, get_elem?, length, arith, append_assoc,
}
use nolock.Mpmc.Scq.Keeps.{less-Holds}
use nolock.Mpmc.ScqBounded.{scq}
use nolock.Mpmc.Bounded.Refine.{rests}
use nolock.Mpmc.Segment.{BoundedQueue}
use nolock.Mpmc.Segment.Refine.{Open, Closed}
use nolock.Mpmc.Unbounded.{Buffer}

-- The calls that a buffer lasts for beyond those of its users: what two receives from a closed buffer
-- without items take.
abbrev pub slack : ℕ → ℕ → ℕ
slack n k = n * 6 + 2 + k

module _ {ℓ} {A : Type ℓ} where
  -- From the buffer `p` the pointers lead through the memory `m` to its last place; the buffers, of `n` places,
  -- hold the items, and all but the last one are closed. Where `strict` is true, the first one holds an item;
  -- each other one does.
  pub data Chain (n k : ℕ) (m : List (Option (Buffer A))) : Bool → ℕ → List A → Type ℓ where
    last :
        {strict : Bool} {p : ℕ} {q : BoundedQueue A} {l : List A}
        → get_elem? m p ≡ some (some (record { queue = q; next = none }))
        → Open n (slack n k) l q
        → suc p ≡ length m
        → (strict ≡ true → 0 < length l)
        → Chain n k m strict p l
    more :
        {strict : Bool} {p : ℕ} {q : BoundedQueue A} {l rest : List A}
        → get_elem? m p ≡ some (some (record { queue = q; next = some (suc p) }))
        → Closed n (slack n k) l q
        → (strict ≡ true → 0 < length l)
        → Chain n k m true (suc p) rest
        → Chain n k m strict p (l ++ rest)

  pub less-Open :
      {n j k : ℕ} {l : List A} {q : BoundedQueue A} → k ≤ j → Open n j l q → Open n k l q
  less-Open le (used, free, r) =
      (used, free, rests scq r (less-Holds le r.aq_holds) (less-Holds le r.fq_holds))

  pub less-Closed :
      {n j k : ℕ} {l : List A} {q : BoundedQueue A} → k ≤ j → Closed n j l q → Closed n k l q
  less-Closed le (t, final, aq, same, h) = (t, final, aq, same, less-Open le h)

  module _ {n k : ℕ} where
    -- One call less.
    pub less-Chain :
        {m : List (Option (Buffer A))} {strict : Bool} {p : ℕ} {l : List A}
        → Chain n (suc k) m strict p l
        → Chain n k m strict p l
    less-Chain (last at h end filled) = last at (less-Open (omega arith) h) end filled
    less-Chain (more at h filled c) = more at (less-Closed (omega arith) h) filled (less-Chain c)

    pub relax :
        {m : List (Option (Buffer A))} {p : ℕ} {l : List A} (strict : Bool)
        → Chain n k m true p l
        → Chain n k m strict p l
    relax strict (last at h end filled) = last at h end (λ s. filled refl)
    relax strict (more at h filled c) = more at h (λ s. filled refl) c

    -- The chain does not depend on the places before it.
    pub frame :
        {m m' : List (Option (Buffer A))} {strict : Bool} {p : ℕ} {l : List A}
        → length m' ≡ length m
        → ((i : ℕ) → p ≤ i → get_elem? m' i ≡ get_elem? m i)
        → Chain n k m strict p l
        → Chain n k m' strict p l
    frame {p} size same (last at h end filled) =
        last (same p (omega arith) ∙ at) h (end ∙ sym size) filled
    frame {p} size same (more at h filled c) =
        more (same p (omega arith) ∙ at) h filled (frame size (λ i le. same i (omega arith)) c)

  -- The last buffer, and what a chain becomes where it and what follows are replaced.
  pub record Final (n k : ℕ) (m : List (Option (Buffer A))) (strict : Bool) (p tail : ℕ)
      (l : List A) : Type ℓ where
    pub before : List A
    pub items : List A
    pub buffer : BoundedQueue A
    pub parts : l ≡ before ++ items
    pub at : get_elem? m tail ≡ some (some (record { queue = buffer; next = none }))
    pub holds : Open n (slack n (suc k)) items buffer
    pub behind : p ≤ tail
    pub replace :
        (m' : List (Option (Buffer A))) (l' : List A)
        → ((i : ℕ) → i < tail → get_elem? m' i ≡ get_elem? m i)
        → Chain n k m' true tail l'
        → Chain n k m' strict p (before ++ l')

  pub final :
      {n k : ℕ} {m : List (Option (Buffer A))} {strict : Bool} {p : ℕ} {l : List A} (tail : ℕ)
      → suc tail ≡ length m
      → Chain n (suc k) m strict p l
      → Final n k m strict p tail l
  final {n} {k} {m} {strict} {p} {l} tail end (last {q} at h stop filled) =
      let here : p ≡ tail = omega arith in
      record {
        before = [];
        items = l;
        buffer = q;
        parts = refl;
        at = ap (get_elem? _) (sym here) ∙ at;
        holds = h;
        behind = omega arith;
        replace = λ m' l' same c. relax strict (subst (λ i. Chain n k m' true i l') (sym here) c);
      }
  final {n} {k} {m} {strict} {p} tail end (more {q} {l} {rest} at h filled c) =
      let f = final tail end c in
      record {
        before = l ++ f.before;
        items = f.items;
        buffer = f.buffer;
        parts = ap (λ r. l ++ r) f.parts ∙ sym (append_assoc l f.before f.items);
        at = f.at;
        holds = f.holds;
        behind = omega (arith, f.behind);
        replace = λ m' l' same c'.
            subst (Chain n k m' strict p) (sym (append_assoc l f.before l')) (
              more (same p (omega (arith, f.behind)) ∙ at) (less-Closed (omega arith) h) filled
                (f.replace m' l' same c'));
      }
