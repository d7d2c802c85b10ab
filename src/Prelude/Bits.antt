-- ===== src/Prelude/Bits.antt =====
-- Shifts, `|` and `&` of machine words, where a word is made of fields: at every width, `|` of a
-- field above `k` bits and one within them is their sum, and `&` with `k` ones is a remainder.
use Prim.Native.Nat.{
  ℕ, zero, suc, ◌+◌, ◌-◌, ◌*◌, ◌/◌, ◌%◌, ◌^◌, ◌≤◌, ◌<◌, min, max, bitwise, bit_and, bit_or,
  bit_and-bitwise, bit_or-bitwise, digits,
}
use mathlib.Core.Path.{◌≡◌, refl, ap, ◌∙◌}
use native.Mathlib.Nat.{pow-suc, one-le-pow, le_refl, div-div-eq-div-mul}
use native.Mathlib.Omega.{arith}

-- `x << k` and `x >> k` of a u64
abbrev pub shl : ℕ → ℕ → ℕ
shl x k = x * 2 ^ k % 2 ^ 64

abbrev pub shr : ℕ → ℕ → ℕ
shr x k = x / 2 ^ k

-- More fuel than digits changes nothing, whatever is done with each pair of digits.
enough_digits :
    (e : ℕ → ℕ) (op : ℕ → ℕ → ℕ) (n m a b : ℕ)
    → a ≤ n
    → a ≤ m
    → digits e op n a b ≡ digits e op m a b
enough_digits e op zero zero a b p q = refl
enough_digits e op zero (suc m) zero b p q = refl
enough_digits e op zero (suc m) (suc a) b p q = absurd (omega arith)
enough_digits e op (suc n) zero zero b p q = refl
enough_digits e op (suc n) zero (suc a) b p q = absurd (omega arith)
enough_digits e op (suc n) (suc m) zero b p q = refl
enough_digits e op (suc n) (suc m) (suc a) b p q =
    ap (λ d. d * 2 + op (suc a % 2) (b % 2))
      (enough_digits e op n m (suc a / 2) (b / 2) (omega arith) (omega arith))

lowest_digit :
    (e : ℕ → ℕ) (op : ℕ → ℕ → ℕ) (a b : ℕ)
    → bitwise e op (suc a) b ≡ bitwise e op (suc a / 2) (b / 2) * 2 + op (suc a % 2) (b % 2)
lowest_digit e op a b =
    ap (λ d. d * 2 + op (suc a % 2) (b % 2))
      (enough_digits e op a (suc a / 2) (suc a / 2) (b / 2) (omega arith) (le_refl _))

or_digit : (a b : ℕ) → bit_or a b ≡ bit_or (a / 2) (b / 2) * 2 + max (a % 2) (b % 2)
or_digit zero b = simp bit_or-bitwise (omega arith)
or_digit (suc a) b = simp bit_or-bitwise (lowest_digit (λ y. y) max a b)

and_digit : (a b : ℕ) → bit_and a b ≡ bit_and (a / 2) (b / 2) * 2 + min (a % 2) (b % 2)
and_digit zero b = simp bit_and-bitwise (omega arith)
and_digit (suc a) b = simp bit_and-bitwise (lowest_digit (λ y. 0) min a b)

or_zero_below : (n a : ℕ) → a ≤ n → bit_or a 0 ≡ a
or_zero_below n zero h = refl
or_zero_below zero (suc a) h = absurd (omega arith)
or_zero_below (suc n) (suc a) h =
    omega (arith, or_digit (suc a) 0, or_zero_below n (suc a / 2) (omega arith))

and_zero_below : (n a : ℕ) → a ≤ n → bit_and a 0 ≡ 0
and_zero_below n zero h = refl
and_zero_below zero (suc a) h = absurd (omega arith)
and_zero_below (suc n) (suc a) h =
    omega (arith, and_digit (suc a) 0, and_zero_below n (suc a / 2) (omega arith))

double : (q k : ℕ) → q * 2 ^ suc k ≡ 2 * (q * 2 ^ k)
double q k = omega (arith, ap (λ (t : ℕ). q * t) (pow-suc 2 k))

-- A field above `k` bits, or a word within them, is their sum.
pub or-eq-add : (k hi lo : ℕ) → lo < 2 ^ k → bit_or (hi * 2 ^ k) lo ≡ hi * 2 ^ k + lo
or-eq-add zero hi lo h = ground (arith, or_zero_below hi hi)
or-eq-add (suc k) hi lo h = ground (
  arith,
  or_digit (hi * 2 ^ suc k) lo,
  double hi k,
  or-eq-add k hi (lo / 2) (omega (arith, pow-suc 2 k)),
)

and_ones_split : (k hi lo : ℕ) → lo < 2 ^ k → bit_and (hi * 2 ^ k + lo) (2 ^ k - 1) ≡ lo
and_ones_split zero hi lo h = ground (arith, and_zero_below (hi + lo) (hi + lo))
and_ones_split (suc k) hi lo h = ground (
  arith,
  and_digit (hi * 2 ^ suc k + lo) (2 ^ suc k - 1),
  double hi k,
  pow-suc 2 k,
  one-le-pow k 2,
  and_ones_split k hi (lo / 2) (omega (arith, pow-suc 2 k)),
)

-- `&` with `k` ones is the remainder by `2 ^ k`.
pub and-eq-mod : (k a : ℕ) → bit_and a (2 ^ k - 1) ≡ a % 2 ^ k
and-eq-mod k a =
    ap (λ x. bit_and x (2 ^ k - 1)) (omega arith)
    ∙ and_ones_split k (a / 2 ^ k) (a % 2 ^ k) (omega (arith, one-le-pow k 2))

-- The lowest bit of a word, set, cleared and read.
pub or-one : (a : ℕ) → bit_or a 1 ≡ a / 2 * 2 + 1
or-one a = omega (arith, or_digit a 1, or_zero_below (a / 2) (a / 2) (le_refl _))

pub and-even : (a : ℕ) → a < 2 ^ 64 → bit_and a (2 ^ 64 - 2) ≡ a / 2 * 2
and-even a h = omega (arith, and_digit a (2 ^ 64 - 2), and-eq-mod 63 (a / 2))

pub and-one : (a : ℕ) → bit_and a 1 ≡ a % 2
and-one a = and-eq-mod 1 a

-- `&` with one bit is that bit.
pub and-bit : (k a : ℕ) → bit_and a (2 ^ k) ≡ a / 2 ^ k % 2 * 2 ^ k
and-bit zero a = and-one a ∙ omega arith
and-bit (suc k) a =
    let half : a / 2 / 2 ^ k ≡ a / 2 ^ suc k =
      div-div-eq-div-mul a 2 (2 ^ k) ∙ ap (λ (t : ℕ). a / t) (omega (arith, pow-suc 2 k)) in
    ground (
      arith,
      and_digit a (2 ^ suc k),
      and-bit k (a / 2),
      pow-suc 2 k,
      half,
      double (a / 2 ^ suc k % 2) k,
    )
