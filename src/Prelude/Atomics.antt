-- ===== src/Prelude/Atomics.antt =====
-- `core::sync::atomic` on a cell that holds a number: what a cell holds afterwards, and the answer.
use Prim.Native.Nat.{ℕ, ◌+◌, ◌%◌, ◌^◌}
use mathlib.Core.Bool.{Bool, true, false}
use nolock.Prelude.Tests.{◌==◌, if◌then◌else◌}

-- `compare_exchange(current, new)`: whether it took place, and the cell.
abbrev pub compare_exchange : ℕ → ℕ → ℕ → Bool × ℕ
compare_exchange cell current new = if cell == current then (true, new) else (false, cell)

-- `usize` and `u32` addition wrap.
abbrev pub add_usize : ℕ → ℕ → ℕ
add_usize a b = (a + b) % 2 ^ 64

abbrev pub add_u32 : ℕ → ℕ → ℕ
add_u32 a b = (a + b) % 2 ^ 32
