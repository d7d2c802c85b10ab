-- ===== src/Lrmalloc/SizeClasses.antt =====
-- src/allocator/lrmalloc/size_classes.rs: the sizes of the blocks, and which class serves a request.
use nolock.Prelude.{
  ℕ, zero, suc, ◌+◌, ◌<◌, ◌≤◌, ◌≡◌, ◌↔◌, refl, Option, none, some, List, [], ◌∷◌, if◌then◌else◌,
  ltb, get_elem?, dec_lt, arith,
}

abbrev pub size_classes : List ℕ
size_classes =
    1024 ∷ 1280 ∷ 1536 ∷ 1792 ∷ 2048 ∷ 2560 ∷ 3072 ∷ 3584 ∷ 4096 ∷ 5120 ∷ 6144 ∷ 7168 ∷ 8192 ∷ 10240
    ∷ 12288 ∷ 14336 ∷ 16384 ∷ []

-- The loop of `get_size_class_index`, from the class `index` on.
unfoldable pub first_larger : ℕ → ℕ → List ℕ → Option ℕ
first_larger size index [] = none
first_larger size index (c ∷ cs) =
    let rest = first_larger size (suc index) cs in if ltb size c then some index else rest

unfoldable pub get_size_class_index : ℕ → Option ℕ
get_size_class_index size = first_larger size 0 size_classes

-- `none` is the panic on an index out of bounds.
unfoldable pub get_block_size : ℕ → Option ℕ
get_block_size size_class = get_elem? size_classes size_class

-- The answer `i` of the loop is of the first entry that exceeds the size.
First : ℕ → ℕ → List ℕ → ℕ → Type 0
First size index cs i =
    (k : ℕ) × (i ≡ index + k)
    × ((b : ℕ) × (get_elem? cs k ≡ some b) × (size < b))
    × ((j c : ℕ) → j < k → get_elem? cs j ≡ some c → c ≤ size)

first_larger-First :
    (size index i : ℕ) (cs : List ℕ) → first_larger size index cs ≡ some i → First size index cs i
unfolding first_larger First
first_larger-First size index i [] e = cc
first_larger-First size index i (c ∷ cs) e = elim (dec_lt size c) [
  | yes lt ↦ (0, ground arith, (c, refl, lt), λ j d below. absurd (omega arith))
  | no ge ↦
      let (k, at, hit, before) = first_larger-First size (suc index) i cs (ground arith) in
      (suc k, omega arith, hit, λ j d below f. go j d below f (omega arith) before)
]
  where
    go :
        (j d : ℕ) {k : ℕ}
        → j < suc k
        → get_elem? (c ∷ cs) j ≡ some d
        → c ≤ size
        → ((j d : ℕ) → j < k → get_elem? cs j ≡ some d → d ≤ size)
        → d ≤ size
    go zero d below f le before = let same : c ≡ d = cc in omega arith
    go (suc j) d below f le before = before j d (omega arith) f

-- The class of a request is the first one whose blocks are larger than it.
pub least_size_class :
    (size i : ℕ)
    → get_size_class_index size ≡ some i
    → ((b : ℕ) × (get_block_size i ≡ some b) × (size < b))
      × ((j c : ℕ) → j < i → get_block_size j ≡ some c → c ≤ size)
unfolding get_size_class_index get_block_size First
least_size_class size i e =
    let (k, at, hit, before) = first_larger-First size 0 i size_classes e in
    let same : i ≡ k = omega arith in rw same (hit, before)

-- A request has no class, and goes to the large allocations, from the largest block size on.
pub large_size_iff : (size : ℕ) → (get_size_class_index size ≡ none) ↔ (16384 ≤ size)
unfolding get_size_class_index first_larger
large_size_iff size = ground arith
