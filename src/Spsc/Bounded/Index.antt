-- ===== src/Spsc/Bounded/Index.antt =====
-- `next_element` of src/queues/spsc/bounded.rs steps round the buffer.
use nolock.Prelude.{ℕ, ◌+◌, ◌%◌, ◌^◌, ◌<◌, ◌≡◌, ◌∙◌, arith, mod-cases, mod-add-one'}
use nolock.Spsc.Bounded.{next_element}

pub next_element_lem : (n i : ℕ) → i < n → n < 2 ^ 64 → next_element i n ≡ (i + 1) % n
unfolding next_element
next_element_lem n i h w = ground (arith, mod-cases n i 1)

-- The index `k` places behind `t` goes on to the next place.
pub next_element-add :
    (n t k : ℕ) → 0 < n → n < 2 ^ 64 → next_element ((t + k) % n) n ≡ (t + (k + 1)) % n
next_element-add n t k pos w = next_element_lem n _ (omega arith) w ∙ mod-add-one' n t k
