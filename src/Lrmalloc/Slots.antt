-- ===== src/Lrmalloc/Slots.antt =====
-- The lists of atomic pointers of src/allocator/lrmalloc: pagemap/storage.rs (with pagemap.rs, whose
-- functions pass their arguments on) and heap/descriptors.rs. An entry that holds no descriptor is
-- null, 0; `descs` is the memory of the descriptors. An operation runs alone.
use nolock.Prelude.{
  ℕ, suc, ◌<◌, ◌≡◌, ◌≢◌, refl, ap, sym, ◌∙◌, Bool, true, false, Option, none, some, List, [], ◌∷◌,
  if◌then◌else◌, ◌==◌, ℕ_discrete, compare_exchange, arith, if-eq, if-ne, Option-cases, inl, inr,
}
use nolock.Lrmalloc.Descriptor
use nolock.Lrmalloc.Descriptor.{Descriptor}

-- `Collection::insert` and `RecycleList::add_descriptor`
unfoldable pub insert : ℕ → List ℕ → List ℕ
insert d [] = d ∷ []
insert d (a ∷ slots) =
    let rest = insert d slots in
    let (done, cell) = compare_exchange a 0 d in
    if a == 0 then (if done then cell ∷ slots else cell ∷ rest) else a ∷ rest

-- `RecycleList::get_descriptor`
unfoldable pub get_descriptor : List ℕ → Option ℕ × List ℕ
get_descriptor [] = (none, [])
get_descriptor (a ∷ slots) =
    let rest = get_descriptor slots in
    let (done, cell) = compare_exchange a a 0 in
    if a == 0
    then (rest.0, a ∷ rest.1)
    else if done
    then (some a, cell ∷ slots)
    else (rest.0, cell ∷ rest.1)

-- `Collection::get`
unfoldable pub get : (ℕ → Descriptor) → List ℕ → ℕ → Option ℕ
get descs [] ptr = none
get descs (a ∷ slots) ptr =
    let rest = get descs slots ptr in
    if a == 0 then rest else if Descriptor.contains (descs a) ptr then some a else rest

-- `Collection::remove`
unfoldable pub remove : ℕ → List ℕ → List ℕ
remove d [] = []
remove d (a ∷ slots) =
    let rest = remove d slots in if a == d then (compare_exchange a a 0).1 ∷ rest else a ∷ rest

-- How often `d` is in the list.
unfoldable pub count : ℕ → List ℕ → ℕ
count d [] = 0
count d (a ∷ slots) = let rest = count d slots in if a == d then suc rest else rest

-- A descriptor is put in once more, whatever else is there.
pub insert_lem :
    (d : ℕ) (slots : List ℕ) (e : ℕ)
    → d ≢ 0
    → e ≢ 0
    → count e (insert d slots) ≡ (if d == e then suc (count e slots) else count e slots)
unfolding insert count
insert_lem d [] e nd ne = ground arith
insert_lem d (a ∷ slots) e nd ne = ground (arith, insert_lem d slots e nd ne)

-- A descriptor that is given out is in the list once less afterwards, every other as often as before,
-- and where none is given out the list holds none.
pub get_descriptor_lem :
    (slots : List ℕ) (e : ℕ)
    → e ≢ 0
    → count e slots ≡ (elim (get_descriptor slots).0 [
      | none ↦ 0
      | some d ↦
          if d == e
          then suc (count e (get_descriptor slots).1)
          else count e (get_descriptor slots).1
    ])
unfolding get_descriptor count
get_descriptor_lem [] e ne = refl
get_descriptor_lem (a ∷ slots) e ne = ground (arith, get_descriptor_lem slots e ne)

-- No null is given out.
pub get_descriptor-ne : (slots : List ℕ) (d : ℕ) → (get_descriptor slots).0 ≡ some d → d ≢ 0
unfolding get_descriptor
get_descriptor-ne [] d e = absurd (cc e)
get_descriptor-ne (a ∷ slots) d e = ground (arith, get_descriptor-ne slots d)

-- After a removal the descriptor is not there, and every other as often as before.
pub remove_lem :
    (d : ℕ) (slots : List ℕ) (e : ℕ)
    → d ≢ 0
    → e ≢ 0
    → count e (remove d slots) ≡ (if d == e then 0 else count e slots)
unfolding remove count
remove_lem d [] e nd ne = ground arith
remove_lem d (a ∷ slots) e nd ne = ground (arith, remove_lem d slots e nd ne)

-- The descriptor that is found is registered, and its superblock contains the pointer.
pub get-some :
    (descs : ℕ → Descriptor) (slots : List ℕ) (ptr d : ℕ)
    → get descs slots ptr ≡ some d
    → (d ≢ 0) × (0 < count d slots) × (Descriptor.contains (descs d) ptr ≡ true)
unfolding get count
get-some descs [] ptr d e = cc
get-some descs (a ∷ slots) ptr d e = ground (arith, get-some descs slots ptr d)

-- Where none is found, no registered superblock contains the pointer.
pub get-none :
    (descs : ℕ → Descriptor) (slots : List ℕ) (ptr : ℕ)
    → get descs slots ptr ≡ none
    → (d : ℕ) → d ≢ 0
    → 0 < count d slots
    → Descriptor.contains (descs d) ptr ≡ false
unfolding get count
get-none descs [] ptr e d nd here = absurd (omega arith)
get-none descs (a ∷ slots) ptr e d nd here = ground (
  arith,
  λ (g : get descs slots ptr ≡ none) (h : 0 < count d slots). get-none descs slots ptr g d nd h,
)

-- A pointer into the superblock of a descriptor that is registered is led to that descriptor, where
-- no other registered superblock contains it, and once it is removed to no descriptor at all.
pub load_registered :
    (descs : ℕ → Descriptor) (slots : List ℕ) (ptr d : ℕ)
    → d ≢ 0
    → Descriptor.contains (descs d) ptr ≡ true
    → ((e : ℕ) → e ≢ 0 → e ≢ d → 0 < count e slots → Descriptor.contains (descs e) ptr ≡ false)
    → (get descs (insert d slots) ptr ≡ some d) × (get descs (remove d (insert d slots)) ptr ≡ none)
load_registered descs slots ptr d nd mine others = (
  elim (Option-cases (get descs (insert d slots) ptr)) [
    | inl e ↦ absurd (
        clash mine (
          get-none descs (insert d slots) ptr e d nd
            (omega (arith, insert_lem d slots d nd nd ∙ if-eq d d (count d slots) refl))))
    | inr (a, e) ↦
        let (na, here, at) = get-some descs (insert d slots) ptr a e in
        elim (ℕ_discrete d a) [
          | yes same ↦ e ∙ ap some (sym same)
          | no ne ↦ absurd (
              clash at (
                others a na (λ e. ne (sym e))
                  (omega (
                    arith,
                    here,
                    insert_lem d slots a nd na ∙ if-ne d a (suc (count a slots)) ne,
                  ))))
        ]
  ],
  elim (Option-cases (get descs (remove d (insert d slots)) ptr)) [
    | inl e ↦ e
    | inr (a, e) ↦
        let (na, here, at) = get-some descs (remove d (insert d slots)) ptr a e in
        elim (ℕ_discrete d a) [
          | yes same ↦ absurd (
              omega (
                arith,
                here,
                remove_lem d (insert d slots) a nd na ∙ if-eq d a (count a (insert d slots)) same,
              ))
          | no ne ↦ absurd (
              clash at (
                others a na (λ e. ne (sym e))
                  (omega (
                    arith,
                    here,
                    remove_lem d (insert d slots) a nd na ∙ if-ne d a 0 ne,
                    insert_lem d slots a nd na ∙ if-ne d a (suc (count a slots)) ne,
                  ))))
        ]
  ],
)
  where
    clash : {b : Bool} → b ≡ true → b ≡ false → ⊥
    clash e f = cc
