-- ===== src/Prelude/Wrap.antt =====
-- Indices that go round a buffer of `n` slots, for a variable `n`.
use Prim.Native.Nat.{ℕ, ◌+◌, ◌-◌, ◌/◌, ◌%◌, ◌<◌, ◌≤◌}
use mathlib.Core.Path.{◌≡◌, ap, sym, ◌∙◌}
use mathlib.Core.Logic.{◌≢◌, ◌⊎◌, inl, inr}
use native.Mathlib.Nat.{
  mod-eq_of_lt, mod-eq-sub-mod, mod-add-mod, mod-lt, add-div_right, mod-add-div,
}
use native.Mathlib.Decide.{dec_lt}
use native.Mathlib.Omega.{arith}

-- Where `t + i` stands after going round at most once.
pub mod-cases :
    (n t i : ℕ)
    → t < n
    → i ≤ n
    → ((t + i < n) × ((t + i) % n ≡ t + i)) ⊎ ((n ≤ t + i) × ((t + i) % n ≡ t + i - n))
mod-cases n t i ht hi = elim (dec_lt (t + i) n) [
  | yes p ↦ inl (p, mod-eq_of_lt p)
  | no p ↦ inr (
    omega arith,
    omega (
      arith,
      mod-eq-sub-mod {n = t + i} {m = n} (omega arith),
      mod-eq_of_lt {n = t + i - n} {m = n} (omega arith),
    ),
  )
]

-- Two offsets below `n` meet only if they are equal.
pub mod-add-ne : (n t i j : ℕ) → t < n → i < n → j < n → i ≢ j → (t + i) % n ≢ (t + j) % n
mod-add-ne n t i j ht hi hj ne =
    omega (arith, mod-cases n t i ht (omega arith), mod-cases n t j ht (omega arith))

-- One step round the buffer and then `i` more.
pub mod-add-one : (n t i : ℕ) → ((t + 1) % n + i) % n ≡ (t + (i + 1)) % n
mod-add-one n t i = rw mod-add-mod (ap (λ k. k % n) (omega arith))

pub mod-add-zero : (n t : ℕ) → t < n → (t + 0) % n ≡ t
mod-add-zero n t h = omega (arith, mod-cases n t 0 h)

pub mod-add_self : (n t : ℕ) → t < n → (t + n) % n ≡ t
mod-add_self n t h = omega (arith, mod-cases n t n h)

pub mod-add-one' : (n t i : ℕ) → ((t + i) % n + 1) % n ≡ (t + (i + 1)) % n
mod-add-one' n t i = rw mod-add-mod (ap (λ k. k % n) (omega arith))

-- The same for any start: two positions less than `n` apart stand in different slots.
pub mod-add-ne_at : (n h i j : ℕ) → i < n → j < n → i ≢ j → (h + i) % n ≢ (h + j) % n
mod-add-ne_at n h i j hi hj ne e =
    mod-add-ne n (h % n) i j (omega (arith, mod-lt h {m = n} (omega arith))) hi hj ne
      (mod-add-mod h n i ∙ e ∙ sym (mod-add-mod h n j))

-- The position `n` further on stands in the same slot, one round later.
pub add-mod_self : (n h : ℕ) → 0 < n → ((h + n) % n ≡ h % n) × ((h + n) / n ≡ h / n + 1)
add-mod_self n h pos = (
  grind (arith, add-div_right h pos, mod-add-div h n, mod-add-div (h + n) n),
  add-div_right h pos,
)
