-- ===== src/Mpsc/Jiffy/Holds.antt =====
-- Which items the buffers of src/queues/mpsc/jiffy.rs hold, where every send has stored its item.
use nolock.Prelude.{
  ℕ, suc, ◌+◌, ◌-◌, ◌*◌, ◌<◌, ◌≤◌, ◌≡◌, ◌≢◌, ap, Option, none, some, List, length, get_elem?, arith,
}
use native.Mathlib.Nat.{add-mul}
use nolock.Mpsc.Node.{Node}
use nolock.Mpsc.BufferList.{BufferList, Memory}
use nolock.Mpsc.Jiffy.{Channel}

-- The entry that a place with this item has.
abbrev pub node_for {ℓ} : {A : Type ℓ} → Option A → Node A
node_for none = record { content = none; is_set = 0 }
node_for (some x) = record { content = some x; is_set = 1 }

module _ {ℓ} {A : Type ℓ} where
  -- The buffer `p` of `count`, where `hb` is the first one, `c` items were taken and `l` are left.
  pub record IsBuffer (size count hb c : ℕ) (l : List A) (p : ℕ) (b : BufferList A) : Type ℓ where
    pub position : b.position_in_queue ≡ suc p
    pub first : p ≡ hb → b.previous ≡ none
    pub behind : (q : ℕ) → p ≡ suc q → hb ≤ q → b.previous ≡ some q
    pub last : suc p ≡ count → b.next ≡ none
    pub before : suc p < count → b.next ≡ some (suc p)
    pub entries : length b.buffer ≡ size
    pub head_first : p ≡ hb → hb * size + b.head ≡ c
    pub head_later : p ≢ hb → b.head ≡ 0
    pub nodes :
        (j : ℕ)
        → j < size
        → c ≤ p * size + j
        → get_elem? b.buffer j ≡ some (node_for (get_elem? l (p * size + j - c)))

  -- The buffers of the memory from `hb` on hold the items `l` after `c` others.
  pub record Layout (size c hb : ℕ) (l : List A) (m : Memory A) : Type ℓ where
    pub head_in : hb < length m
    pub buffers :
        (p : ℕ)
        → hb ≤ p
        → p < length m
        → (b : BufferList A) × (get_elem? m p ≡ some (some b)) × IsBuffer size (length m) hb c l p b

  -- The channel holds the items `l` after `c` others. The last buffer is made when the third entry of the one
  -- before it is written.
  pub record Holds (size c hb : ℕ) (l : List A) (s : Channel A) : Type ℓ where
    pub tail_at : s.tail ≡ c + length l
    pub head_at : s.head_of_queue ≡ hb
    pub last_at : suc s.tail_of_queue ≡ length s.memory
    pub reach : c + length l + size ≤ length s.memory * size + 2
    pub near : length s.memory * size ≤ c + length l + size * 2
    pub from : hb * size ≤ c
    pub to : c < hb * size + size
    pub layout : Layout size c hb l s.memory

-- The places of an earlier buffer come before those of a later one.
pub block-le : (p q size : ℕ) → p < q → p * size + size ≤ q * size
block-le p q size lt =
    let e : suc p + (q - suc p) ≡ q = omega arith in
    let f = ap (λ k. k * size) e in omega (arith, f, add-mul (suc p) (q - suc p) size)
