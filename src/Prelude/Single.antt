-- ===== src/Prelude/Single.antt =====
-- Lists of numbers in which none stands twice: indices and pointers that have one owner.
use Prim.Native.Nat.{ℕ, suc}
use mathlib.Core.Path.{◌≡◌, refl, sym, ap, ◌∙◌}
use mathlib.Core.Logic.{◌≢◌, inl, inr}
use mathlib.Core.List.{List, [], ◌∷◌, ◌++◌}
use mathlib.Core.Option.{some}
use native.Mathlib.Omega.{arith}
use nolock.Prelude.Lists.{
  length, get_elem?, get_elem?-append_cases, get_elem?-append_lt, lt_of_get_elem?,
}

abbrev pub Once : List ℕ → Type 0
Once l = (i j x : ℕ) → get_elem? l i ≡ some x → get_elem? l j ≡ some x → i ≡ j

pub Once-tail : {x : ℕ} (l : List ℕ) → Once (x ∷ l) → Once l
Once-tail l once i j y e f = omega (arith, once (suc i) (suc j) y e f)

-- A new one goes to the end.
pub Once-snoc :
    (x : ℕ) (l : List ℕ)
    → Once l
    → ((i y : ℕ) → get_elem? l i ≡ some y → y ≢ x)
    → Once (l ++ (x ∷ []))
Once-snoc x l once new i j y e f = elim (get_elem?-append_cases l x i y e) [
  | inl (lt, e') ↦ elim (get_elem?-append_cases l x j y f) [
    | inl (lt', f') ↦ once i j y e' f'
    | inr (at', f') ↦ absurd (new i y e' f')
  ]
  | inr (at, e') ↦ elim (get_elem?-append_cases l x j y f) [
    | inl (lt', f') ↦ absurd (new j y f' e')
    | inr (at', f') ↦ at ∙ sym at'
  ]
]

-- The first one is none of the others.
pub Once-ne : (x : ℕ) (l : List ℕ) → Once (x ∷ l) → (i y : ℕ) → get_elem? l i ≡ some y → y ≢ x
Once-ne x l once i y e same = absurd (omega (arith, once 0 (suc i) y (ap some (sym same)) e))

-- The first one may go to the end.
pub Once-rotate : (x : ℕ) (l : List ℕ) → Once (x ∷ l) → Once (l ++ (x ∷ []))
Once-rotate x l once = Once-snoc x l (Once-tail l once) (Once-ne x l once)

pub first_behind : (l r : List ℕ) (x : ℕ) → get_elem? (l ++ (x ∷ r)) (length l) ≡ some x
first_behind [] r x = refl
first_behind (y ∷ l) r x = first_behind l r x

-- One in the middle is none of those before it.
pub Once-ne_before :
    (l r : List ℕ) (x : ℕ) → Once (l ++ (x ∷ r)) → (i y : ℕ) → get_elem? l i ≡ some y → x ≢ y
Once-ne_before l r x once i y e same =
    let lt = lt_of_get_elem? l i y e in
    absurd (
      omega (
        arith,
        lt,
        once i (length l) y (get_elem?-append_lt l (x ∷ r) i lt ∙ e)
            (first_behind l r x ∙ ap some same),
      ))
