-- ===== src/Lrmalloc/Descriptor.antt =====
-- src/allocator/lrmalloc/descriptor.rs: what is known of one superblock.
use nolock.Prelude.{
  ℕ, zero, suc, ◌+◌, ◌-◌, ◌*◌, ◌/◌, ◌%◌, ◌^◌, ◌<◌, ◌≤◌, ◌≡◌, Bool, true, ◌&&◌, Option, none, some,
  if◌then◌else◌, leb, ◌==◌, if-ne, arith, sym, ap, ◌∙◌,
}
use native.Mathlib.Nat.{mul-suc, suc-mul, mul-le-mul_left, mul-div_right}
use nolock.Lrmalloc.Anchor
use nolock.Lrmalloc.Anchor.{Anchor}

pub record Descriptor : Type 0 where
  pub anchor : ℕ  -- the word of the atomic
  pub super_block : ℕ
  pub block_size : ℕ
  pub max_count : ℕ
  pub size_class : Option ℕ
  pub lower_bound : ℕ  -- of `ptr_range`
  pub upper_bound : ℕ

unfoldable pub new : ℕ → ℕ → Option ℕ → ℕ → Descriptor
new block_size max_count size_class super_block = record {
  anchor = Anchor.to_u64 (Anchor.new (max_count % 2 ^ 32));
  super_block = super_block;
  block_size = block_size;
  max_count = max_count;
  size_class = size_class;
  lower_bound = super_block;
  upper_bound = super_block + (block_size - 1) * max_count;
}

unfoldable pub contains : Descriptor → ℕ → Bool
contains d ptr = leb d.lower_bound ptr && leb ptr d.upper_bound

-- A division by zero panics; the difference wraps.
unfoldable pub calc_index : Descriptor → ℕ → Option ℕ
calc_index d ptr =
    let offset = (ptr + 2 ^ 64 - d.super_block) % 2 ^ 64 in
    if d.block_size == 0 then none else some (offset / d.block_size % 2 ^ 32)

less_one : (b m : ℕ) → 0 < b → (b - 1) * m + m ≡ b * m
less_one zero m pos = absurd (omega arith)
less_one (suc b) m pos = ap (λ t. t * m + m) (omega arith) ∙ sym (suc-mul b m)

-- In a descriptor made by `Descriptor::new`, with at most as many blocks as a block has bytes and a
-- superblock below 2 ^ 64, the start of every block is contained and `calc_index` gives its block.
pub block_start_lem :
    (block_size max_count super_block i : ℕ) (size_class : Option ℕ)
    → i < max_count
    → max_count ≤ block_size
    → super_block + block_size * max_count < 2 ^ 64
    → max_count < 2 ^ 32
    → let d = new block_size max_count size_class super_block in
      (contains d (super_block + block_size * i) ≡ true)
      × (calc_index d (super_block + block_size * i) ≡ some i)
unfolding new contains calc_index
block_start_lem b m a i size_class hi few top small =
    (ground (arith, inside), if-ne b 0 none (omega arith) ∙ ap some index)
  where
    next : b * i + b ≤ b * m
    next = omega (arith, mul-suc b i, mul-le-mul_left {m = suc i} {n = m} b hi)

    inside : b * i ≤ (b - 1) * m
    inside = omega (arith, less_one b m (omega arith), next)

    index : (a + b * i + 2 ^ 64 - a) % 2 ^ 64 / b % 2 ^ 32 ≡ i
    index =
        ap (λ t. t / b % 2 ^ 32) (omega (arith, next))
        ∙ ap (λ t. t % 2 ^ 32) (mul-div_right i {m = b} (omega arith))
        ∙ omega arith

-- Every pointer that a new descriptor contains lies in its superblock, where that has a byte.
pub contains-lt :
    (block_size max_count super_block ptr : ℕ) (size_class : Option ℕ)
    → 0 < block_size
    → 0 < max_count
    → contains (new block_size max_count size_class super_block) ptr ≡ true
    → (super_block ≤ ptr) × (ptr < super_block + block_size * max_count)
unfolding new contains
contains-lt b m a ptr size_class pos some_block e = ground (arith, less_one b m pos)
