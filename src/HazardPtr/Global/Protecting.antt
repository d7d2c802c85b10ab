-- ===== src/HazardPtr/Global/Protecting.antt =====
-- What a guard does to the pointers that src/hazard_ptr/domain/global.rs collects.
use nolock.Prelude.{
  false, ℕ, zero, suc, ◌≤◌, ◌≡◌, refl, sym, ◌∙◌, Option, none, some, List, [], ◌∷◌, get_elem?, set,
  subst, length, arith, ap, true, ◌++◌, inl, inr, Bool-cases, ◌>>=◌, get_elem?-set_self,
  get_elem?-set_ne, lt_of_get_elem?, some-injective, length-set,
}
use nolock.HazardPtr.Global.{
  Record, Memory, DomainGlobal, deref, reset, store_ptr, same_ptr, protect_loop, protect,
  get_protections,
}
use nolock.HazardPtr.Global.Laws.{Chain, end, link, protected, protections_from_lem, chain_below}

-- The record `i` of the list that begins at `g`.
abbrev pub record_at : Memory → Option ℕ → ℕ → Option ℕ
record_at m g zero = g
record_at m none (suc i) = none
record_at m (some p) (suc i) = do r ← deref m p; record_at m r.next i

record_at_next :
    (m : Memory) (p i : ℕ) {r : Record}
    → get_elem? m p ≡ some (some r)
    → record_at m (some p) (suc i) ≡ record_at m r.next i
record_at_next m p i found = rw (found, ◌>>=◌) refl

-- A write to the pointer of the record `i`.
write_at :
    {m : Memory} {lo hi : ℕ} {g : Option ℕ} {ptrs : List (Option ℕ)} (i p : ℕ) (v : Option ℕ)
    → Chain m lo hi g ptrs
    → record_at m g i ≡ some p
    → (r : Record) × (get_elem? m p ≡ some (some r))
      × (lo ≤ p)
      × Chain (set m p (some (record r { ptr = v }))) lo hi g (set ptrs i v)
      × (record_at (set m p (some (record r { ptr = v }))) g i ≡ some p)
write_at zero p v end at = absurd (cc at)
write_at (suc i) p v end at = absurd (cc at)
write_at {m} {lo} {hi} {ptrs = ptrs} zero p v
      (link {next = next} {ptrs = rest} q ptr le lt found more) at =
    subst
      (λ p.
        (r : Record) × (get_elem? m p ≡ some (some r))
        × (lo ≤ p)
        × Chain (set m p (some (record r { ptr = v }))) lo hi (some q) (v ∷ rest)
        × (record_at (set m p (some (record r { ptr = v }))) (some q) zero ≡ some p))
      (some-injective q p at)
      (
        record { ptr = ptr; next = next },
        found,
        le,
        link q v le lt
            (get_elem?-set_self m q (some (record { ptr = v; next = next }))
              (lt_of_get_elem? m q _ found))
            (chain_below q (some (record { ptr = v; next = next })) (omega arith) more),
        refl,
      )
write_at {m} (suc i) p v (link q ptr le lt found more) at =
    let (r, there, behind, chain, again) =
      write_at i p v more (sym (record_at_next m q i found) ∙ at) in
    let kept =
      get_elem?-set_ne m p q (some (record r { ptr = v })) (λ e. absurd (omega arith)) ∙ found in
    (
      r,
      there,
      omega arith,
      link q ptr le lt kept chain,
      record_at_next (set m p (some (record r { ptr = v }))) q i kept ∙ again,
    )

set_again :
    (ptrs : List (Option ℕ)) (i : ℕ) (v w : Option ℕ) → set (set ptrs i v) i w ≡ set ptrs i w
set_again [] i v w = refl
set_again (x ∷ ptrs) zero v w = refl
set_again (x ∷ ptrs) (suc i) v w = ap (λ l. x ∷ l) (set_again ptrs i v w)

same_ptr_self : (v : Option ℕ) → same_ptr v v ≡ true
same_ptr_self none = refl
same_ptr_self (some p) = ground arith

-- The first pointer that two loads in a row meet.
abbrev pub settled : Option ℕ → List (Option ℕ) → Option (Option ℕ)
settled first [] = none
settled first (next ∷ loads) = elim (same_ptr next first) [
  | true ↦ some first
  | false ↦ settled next loads
]

module _ {lo hi : ℕ} (g : Option ℕ) (fuel i p : ℕ) where
  -- What the others collect once the record `i` protects `v`.
  store_ptr_lem :
      {ptrs : List (Option ℕ)} (m : Memory) (v : Option ℕ)
      → Chain m lo hi g ptrs
      → record_at m g i ≡ some p
      → (m' : Memory) × (store_ptr m p v ≡ some m')
        × Chain m' lo hi g (set ptrs i v)
        × (record_at m' g i ≡ some p)
  unfolding store_ptr
  store_ptr_lem m v chain at =
      let (r, found, le, written, again) = write_at i p v chain at in
      (set m p (some (record r { ptr = v })), rw (found, ◌>>=◌) refl, written, again)

  -- The loop ends where two loads in a row meet the same pointer, and this is the answer.
  protect_loop_lem :
      (changes : List (Option ℕ)) {ptrs : List (Option ℕ)} (m : Memory) (first v : Option ℕ)
      (later : List (Option ℕ))
      → Chain m lo hi g ptrs
      → record_at m g i ≡ some p
      → (m' : Memory) × (w : Option ℕ) × (protect_loop m p first (changes ++ (v ∷ v ∷ later))
          ≡ some (m', w))
        × (settled first (changes ++ (v ∷ v ∷ later)) ≡ some w)
        × Chain m' lo hi g (set ptrs i w)
  unfolding protect_loop
  protect_loop_lem [] {ptrs} m first v later chain at =
      let (m1, e1, chain1, at1) = store_ptr_lem m first chain at in
      let (m2, e2, chain2, at2) = store_ptr_lem m1 v chain1 at1 in
      elim (Bool-cases (same_ptr v first)) [
        | inl e ↦ (m1, first, rw (e1, ◌>>=◌, e) refl, rw (settled, e) refl, chain1)
        | inr e ↦ (
          m2,
          v,
          rw (e1, ◌>>=◌, e, e2, same_ptr_self v) refl,
          rw (settled, e, same_ptr_self v) refl,
          subst (Chain m2 lo hi g) (set_again ptrs i first v) chain2,
        )
      ]
  protect_loop_lem (c ∷ changes) {ptrs} m first v later chain at =
      let (m1, e1, chain1, at1) = store_ptr_lem m first chain at in
      elim (Bool-cases (same_ptr c first)) [
        | inl e ↦ (m1, first, rw (e1, ◌>>=◌, e) refl, rw (settled, e) refl, chain1)
        | inr e ↦
            let (m2, w, ended, last, chain2) = protect_loop_lem changes m1 c v later chain1 at1 in
            (
              m2,
              w,
              rw (e1, ◌>>=◌, e) ended,
              rw (settled, e) last,
              subst (Chain m2 lo hi g) (set_again ptrs i first w) chain2,
            )
      ]

length-set_ptr :
    (ptrs : List (Option ℕ)) (i fuel : ℕ) (v : Option ℕ)
    → length ptrs ≤ fuel
    → length (set ptrs i v) ≤ fuel
length-set_ptr ptrs i fuel v enough = omega (arith, length-set ptrs i v)

module _ {lo hi : ℕ} {ptrs : List (Option ℕ)} (s : DomainGlobal) (fuel i p : ℕ)
    (chain : Chain s.memory lo hi s.records ptrs) (at : record_at s.memory s.records i ≡ some p)
    (enough : length ptrs ≤ fuel) where
  -- Where the shared pointer is loaded twice in a row with the same value, after whatever other values, a guard with the
  -- record `i` comes to an end, its answer is the first pointer that two loads in a row meet, and once it has ended
  -- this one is collected for that record; the other records protect what they did.
  pub get_protections-protect :
      (first v : Option ℕ) (changes later : List (Option ℕ))
      → (m : Memory) × (w : Option ℕ) × (protect s.memory p (first ∷ (changes ++ (v ∷ v ∷ later)))
          ≡ some (m, w))
        × (settled first (changes ++ (v ∷ v ∷ later)) ≡ some w)
        × (get_protections fuel (record s { memory = m }) ≡ some (protected (set ptrs i w)))
  unfolding protect get_protections
  get_protections-protect first v changes later =
      let (m, w, e, last, written) =
        protect_loop_lem s.records fuel i p changes s.memory first v later chain at in
      (m, w, e, last, protections_from_lem fuel written (length-set_ptr ptrs i fuel w enough))

  -- After the reset that the drop of a guard does, its record protects nothing.
  pub get_protections-reset :
      (m : Memory) × (reset s.memory p ≡ some m)
      × (get_protections fuel (record s { memory = m }) ≡ some (protected (set ptrs i none)))
  unfolding reset get_protections
  get_protections-reset =
      let (r, found, le, written, again) = write_at i p none chain at in
      (
        set s.memory p (some (record r { ptr = none })),
        rw (found, ◌>>=◌) refl,
        protections_from_lem fuel written (length-set_ptr ptrs i fuel none enough),
      )
