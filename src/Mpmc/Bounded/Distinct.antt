-- ===== src/Mpmc/Bounded/Distinct.antt =====
-- Lists in which no index stands twice.
use nolock.Prelude.{
  ℕ, Once, Once-rotate, first_behind, zero, suc, ◌<◌, ◌≡◌, refl, sym, ap, some, List, [], ◌∷◌, ◌++◌,
  length, get_elem?, arith, inl, inr, get_elem?-append_cases, length-append,
}

-- Every index below `n` that `l` holds it holds once, and it holds `n` of them.
pub record Distinct (n : ℕ) (l : List ℕ) : Type 0 where
  pub size : length l ≡ n
  pub below : (i x : ℕ) → get_elem? l i ≡ some x → x < n
  pub once : Once l

-- The first one may go to the end.
pub Distinct-rotate : (n x : ℕ) (l : List ℕ) → Distinct n (x ∷ l) → Distinct n (l ++ (x ∷ []))
Distinct-rotate n x l d = record {
  size = omega (arith, d.size, length-append l (x ∷ []));
  below = λ i y e. elim (get_elem?-append_cases l x i y e) [
    | inl (lt, f) ↦ d.below (suc i) y f
    | inr (at, f) ↦ d.below 0 y (ap some (sym f))
  ];
  once = Once-rotate x l d.once;
}

pub Distinct-lt : {n x : ℕ} (used free : List ℕ) → Distinct n (used ++ (x ∷ free)) → x < n
Distinct-lt {x} used free d = d.below _ x (first_behind used free x)

-- The indices below `n`, in order.
abbrev pub upto : ℕ → List ℕ
upto zero = []
upto (suc i) = upto i ++ (i ∷ [])

pub length-upto : (n : ℕ) → length (upto n) ≡ n
length-upto zero = refl
length-upto (suc n) = omega (arith, length-append (upto n) (n ∷ []), length-upto n)

get_elem?-upto : (n i x : ℕ) → get_elem? (upto n) i ≡ some x → (x ≡ i) × (i < n)
get_elem?-upto zero i x e = cc
get_elem?-upto (suc n) i x e = elim (get_elem?-append_cases (upto n) n i x e) [
  | inl (lt, f) ↦ omega (arith, get_elem?-upto n i x f)
  | inr (at, f) ↦ omega (arith, length-upto n)
]

pub upto-Distinct : (n : ℕ) → Distinct n (upto n)
upto-Distinct n = record {
  size = length-upto n;
  below = λ i x e. omega (arith, get_elem?-upto n i x e);
  once = λ i j x e f. omega (arith, get_elem?-upto n i x e, get_elem?-upto n j x f);
}
