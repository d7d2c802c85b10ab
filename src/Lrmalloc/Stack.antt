-- ===== src/Lrmalloc/Stack.antt =====
-- src/allocator/lrmalloc/cache/stack.rs: the stack of block pointers of one size class. `none` is the
-- panic on an index out of bounds.
use nolock.Prelude.{
  ℕ, zero, suc, ◌+◌, ◌-◌, ◌<◌, ◌≤◌, ◌≡◌, refl, ap, ◌∙◌, Option, none, some, List, [], ◌∷◌, ◌>>=◌,
  Result, ok, err, if◌then◌else◌, leb, get_elem?, set, replicate, length, length-replicate,
  length-set, get_elem?-set_self, get_elem?-set_ne, lt_of_get_elem?, arith, dec_lt, get_elem?_of_lt,
}

pub record Stack : Type 0 where
  pub buffer : List ℕ
  pub used : ℕ

unfoldable pub new : ℕ → Stack
new n = record { buffer = replicate n 0; used = 0 }

unfoldable pub try_pop : Stack → Option (Option ℕ × Stack)
try_pop s = elim s.used [
  | zero ↦ some (none, s)
  | suc location ↦ do
    ptr ← get_elem? s.buffer location
    some (some ptr, record s { used = location })
]

-- `N` is the length of the array.
unfoldable pub try_push : ℕ → Stack → ℕ → Option (Result (Unit {0}) ℕ × Stack)
try_push n s ptr = if leb n s.used then some (err ptr, s) else (do
  slot ← get_elem? s.buffer s.used
  some (ok tt, record { buffer = set s.buffer s.used ptr; used = s.used + 1 }))

-- The stack holds `l`, the last one pushed first.
pub record Holds (n : ℕ) (l : List ℕ) (s : Stack) : Type 0 where
  pub size : length s.buffer ≡ n
  pub fits : length l ≤ n
  pub top : s.used ≡ length l
  pub items : (j x : ℕ) → get_elem? l j ≡ some x → get_elem? s.buffer (length l - suc j) ≡ some x

pub new-Holds : (n : ℕ) → Holds n [] (new n)
unfolding new
new-Holds n = record {
  size = length-replicate n 0;
  fits = omega arith;
  top = refl;
  items = λ j x e. cc;
}

pub push-Holds :
    {n : ℕ} {l : List ℕ} {s : Stack} (x : ℕ)
    → Holds n l s
    → length l < n
    → Holds n (x ∷ l) (record { buffer = set s.buffer s.used x; used = s.used + 1 })
push-Holds {n} {l} {s} x h room = record {
  size = length-set s.buffer _ _ ∙ h.size;
  fits = omega arith;
  top = omega (arith, h.top);
  items = λ j y e. ap (get_elem? (set s.buffer s.used x)) (omega arith) ∙ go j y e;
}
  where
    go :
        (j y : ℕ)
        → get_elem? (x ∷ l) j ≡ some y
        → get_elem? (set s.buffer s.used x) (length l - j) ≡ some y
    go zero y e =
        ap (get_elem? (set s.buffer s.used x)) (omega (arith, h.top))
        ∙ get_elem?-set_self s.buffer s.used x (omega (arith, h.size, h.top))
        ∙ e
    go (suc j) y e =
        let lt = lt_of_get_elem? l j y e in
        get_elem?-set_ne s.buffer s.used (length l - suc j) x (omega (arith, h.top)) ∙ h.items j y e

pub pop-Holds :
    {n x : ℕ} {l : List ℕ} {s : Stack}
    → Holds n (x ∷ l) s
    → Holds n l (record s { used = length l })
pop-Holds {l} {s} h = record {
  size = h.size;
  fits = omega (arith, h.fits);
  top = refl;
  items = λ j y e. ap (get_elem? s.buffer) (omega arith) ∙ h.items (suc j) y e;
}

-- What a stack of at most `n` pointers promises.
abbrev pub push : ℕ → List ℕ → ℕ → Result (Unit {0}) ℕ × List ℕ
push n l x = if leb n (length l) then (err x, l) else (ok tt, x ∷ l)

abbrev pub pop : List ℕ → Option ℕ × List ℕ
pop [] = (none, [])
pop (x ∷ l) = (some x, l)

pub try_push_refines :
    {n : ℕ} {l : List ℕ} {s : Stack} (x : ℕ)
    → Holds n l s
    → (s' : Stack) × (try_push n s x ≡ some ((push n l x).0, s')) × Holds n (push n l x).1 s'
unfolding try_push
try_push_refines {n} {l} {s} x h = elim (dec_lt (length l) n) [
  | yes lt ↦
      let (slot, found) = get_elem?_of_lt s.buffer s.used (omega (arith, h.size, h.top)) in
      (
        record { buffer = set s.buffer s.used x; used = s.used + 1 },
        ground (arith, h.top, found),
        rw (room lt) (push-Holds x h lt),
      )
  | no ge ↦ (s, ground (arith, h.top), rw (no_room (omega arith)) h)
]
  where
    room : length l < n → push n l x ≡ (ok tt, x ∷ l)
    room lt = ground arith

    no_room : n ≤ length l → push n l x ≡ (err x, l)
    no_room ge = ground arith

pub try_pop_refines :
    {n : ℕ} (l : List ℕ) {s : Stack}
    → Holds n l s
    → (s' : Stack) × (try_pop s ≡ some ((pop l).0, s')) × Holds n (pop l).1 s'
unfolding try_pop
try_pop_refines [] {s} h = (s, ground (arith, h.top), h)
try_pop_refines (x ∷ l) {s} h =
    (record s { used = length l }, ground (arith, h.top, h.items 0 x refl), pop-Holds h)

-- `FlushIter`, until it has no more items.
unfoldable pub flush : ℕ → Stack → Option (List ℕ × Stack)
flush zero s = none
flush (suc fuel) s = elim (try_pop s) [
  | none ↦ none
  | some (item, s') ↦ elim item [
    | none ↦ some ([], s')
    | some ptr ↦ do (rest, s'') ← flush fuel s'; some (ptr ∷ rest, s'')
  ]
]

-- A flush takes all pointers, the last one pushed first, and leaves the stack empty.
pub flush_lem :
    {n : ℕ} (fuel : ℕ) (l : List ℕ) {s : Stack}
    → Holds n l s
    → length l < fuel
    → (s' : Stack) × (flush fuel s ≡ some (l, s')) × Holds n [] s'
unfolding flush
flush_lem zero l h enough = absurd (omega arith)
flush_lem (suc fuel) [] h enough =
    let (s', e, h') = try_pop_refines [] h in (s', rw (e, flush) refl, h')
flush_lem (suc fuel) (x ∷ l) h enough =
    let (s1, e, h1) = try_pop_refines (x ∷ l) h in
    let (s2, f, h2) = flush_lem fuel l h1 (omega arith) in (s2, rw (e, flush, f) refl, h2)
