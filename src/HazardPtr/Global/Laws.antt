-- ===== src/HazardPtr/Global/Laws.antt =====
-- What the operations do to the list of records of src/hazard_ptr/domain/global.rs.
use nolock.Prelude.{
  ℕ, zero, suc, ◌+◌, ◌<◌, ◌≤◌, ◌≡◌, refl, sym, ap, ◌∙◌, Option, none, some, List, [], ◌∷◌, ◌++◌,
  get_elem?, set, subst, length, arith, ◌>>=◌, get_elem?-set_self, get_elem?-set_ne,
  get_elem?-append_lt, get_elem?-append_last, lt_of_get_elem?, length-append, length-set,
}
use nolock.HazardPtr.Global.{
  Record, Memory, DomainGlobal, boxed_empty, insert, protections_from, append_from, append_record,
  generate_new_record, clean_up_from, clean_up,
}

-- From `p` on, at places from `lo` on and below `hi`, records with these pointers are linked.
pub data Chain (m : Memory) : ℕ → ℕ → Option ℕ → List (Option ℕ) → Type 0 where
  end : {lo hi : ℕ} → Chain m lo hi none []
  link :
      {lo hi : ℕ} {next : Option ℕ} {ptrs : List (Option ℕ)} (p : ℕ) (ptr : Option ℕ)
      → lo ≤ p
      → p < hi
      → get_elem? m p ≡ some (some (record { ptr = ptr; next = next }))
      → Chain m (suc p) hi next ptrs
      → Chain m lo hi (some p) (ptr ∷ ptrs)

-- The pointers that are not null.
abbrev pub protected : List (Option ℕ) → List ℕ
protected [] = []
protected (none ∷ ptrs) = protected ptrs
protected (some v ∷ ptrs) = v ∷ protected ptrs

insert_lem :
    (ptr : Option ℕ) (ptrs : List (Option ℕ)) → insert ptr (protected ptrs) ≡ protected (ptr ∷ ptrs)
insert_lem none ptrs = refl
insert_lem (some v) ptrs = refl

pub protections_from_lem :
    {m : Memory} {lo hi : ℕ} {g : Option ℕ} {ptrs : List (Option ℕ)} (fuel : ℕ)
    → Chain m lo hi g ptrs
    → length ptrs ≤ fuel
    → protections_from fuel m g ≡ some (protected ptrs)
unfolding protections_from
protections_from_lem fuel end enough = refl
protections_from_lem zero (link p ptr lo hi found rest) enough = absurd (omega arith)
protections_from_lem (suc fuel) (link {ptrs = ptrs} p ptr lo hi found rest) enough =
    rw (protections_from, found, ◌>>=◌, protections_from_lem fuel rest (omega arith))
      (ap some (insert_lem ptr ptrs))

-- A chain below the end of the memory is not changed by a new record behind the end.
chain_append :
    {m : Memory} {lo hi : ℕ} {g : Option ℕ} {ptrs : List (Option ℕ)} (more : Memory)
    → Chain m lo hi g ptrs
    → Chain (m ++ more) lo hi g ptrs
chain_append more end = end
chain_append {m} more (link p ptr lo hi found rest) =
    link p ptr lo hi (get_elem?-append_lt m more p (lt_of_get_elem? m p _ found) ∙ found)
      (chain_append more rest)

-- The record at `n` becomes the last one.
append_from_lem :
    {m : Memory} {lo n p : ℕ} {ptrs : List (Option ℕ)} {ptr : Option ℕ} (fuel : ℕ)
    → Chain m lo n (some p) ptrs
    → get_elem? m n ≡ some (some (record { ptr = ptr; next = none }))
    → length ptrs ≤ fuel
    → (m' : Memory) × (append_from fuel m p n ≡ some m')
      × (length m' ≡ length m)
      × ((q : ℕ) → q < lo → get_elem? m' q ≡ get_elem? m q)
      × Chain m' lo (suc n) (some p) (ptrs ++ (ptr ∷ []))
unfolding append_from
append_from_lem zero (link p ptr' lo hi found rest) fresh enough = absurd (omega arith)
append_from_lem {m} {lo} {n} {ptr = ptr} (suc fuel) (link p ptr' le lt found end) fresh enough =
    let cell : Option Record = some (record { ptr = ptr'; next = some n }) in
    (
      set m p cell,
      rw (append_from, found, ◌>>=◌) refl,
      length-set m p cell,
      λ q below. get_elem?-set_ne m p q cell (λ e. absurd (omega arith)),
      link p ptr' le (omega arith) (get_elem?-set_self m p cell (lt_of_get_elem? m p _ found)) (
          link n ptr (omega arith) (omega arith)
            (get_elem?-set_ne m p n cell (λ e. absurd (omega arith)) ∙ fresh) end),
    )
append_from_lem {m} {lo} {n} (suc fuel) (link p ptr' le lt found (link q ptr'' le' lt' found' rest))
      fresh enough =
    let (m', e, same, kept, chain) =
      append_from_lem fuel (link q ptr'' le' lt' found' rest) fresh (omega arith) in
    (
      m',
      rw (append_from, found, ◌>>=◌) e,
      same,
      λ q below. kept q (omega arith),
      link p ptr' le (omega arith) (kept p (omega arith) ∙ found) chain,
    )

fresh_last :
    (fuel : ℕ) (m : Memory) (g : Option ℕ) {ptrs : List (Option ℕ)}
    → Chain m 0 (length m) g ptrs
    → length ptrs ≤ fuel
    → (s' : DomainGlobal) × (append_record fuel
          (record { memory = m ++ (some boxed_empty ∷ []); records = g })
          (length m)
        ≡ some s')
      × (length s'.memory ≡ suc (length m))
      × Chain s'.memory 0 (suc (length m)) s'.records (ptrs ++ (none ∷ []))
unfolding append_record boxed_empty
fresh_last fuel m none end enough =
    let fresh = get_elem?-append_last m (some boxed_empty) in
    (
      record { memory = m ++ (some boxed_empty ∷ []); records = some (length m) },
      refl,
      omega (arith, length-append m (some boxed_empty ∷ [])),
      link (length m) none (omega arith) (omega arith) fresh end,
    )
fresh_last fuel m (some first) chain enough =
    let fresh = get_elem?-append_last m (some boxed_empty) in
    let (m', e, same, kept, grown) =
      append_from_lem fuel (chain_append (some boxed_empty ∷ []) chain) fresh enough in
    (
      record { memory = m'; records = some first },
      rw e refl,
      omega (arith, same, length-append m (some boxed_empty ∷ [])),
      grown,
    )

-- A new record is the last one of the list, protects nothing, and leaves the others as they are, in as many rounds
-- as there are records.
pub generate_new_record-Chain :
    {ptrs : List (Option ℕ)} (fuel : ℕ) (s : DomainGlobal)
    → Chain s.memory 0 (length s.memory) s.records ptrs
    → length ptrs ≤ fuel
    → (s' : DomainGlobal) × (generate_new_record fuel s ≡ some (length s.memory, s'))
      × Chain s'.memory 0 (length s'.memory) s'.records (ptrs ++ (none ∷ []))
unfolding generate_new_record
generate_new_record-Chain {ptrs} fuel s chain enough =
    let (s', e, size, grown) = fresh_last fuel s.memory s.records chain enough in
    (
      s',
      rw e refl,
      subst (λ n. Chain s'.memory 0 n s'.records (ptrs ++ (none ∷ []))) (sym size) grown,
    )

-- The records that are not freed.
abbrev pub live : Memory → ℕ
live [] = 0
live (none ∷ m) = live m
live (some r ∷ m) = suc (live m)

live-set :
    (m : Memory) (p : ℕ) (r : Record)
    → get_elem? m p ≡ some (some r)
    → suc (live (set m p none)) ≡ live m
live-set [] p r e = absurd (cc e)
live-set (none ∷ m) zero r e = absurd (cc e)
live-set (some r' ∷ m) zero r e = refl
live-set (none ∷ m) (suc p) r e = live-set m p r e
live-set (some r' ∷ m) (suc p) r e = ap suc (live-set m p r e)

pub chain_below :
    {m : Memory} {lo hi : ℕ} {g : Option ℕ} {ptrs : List (Option ℕ)} (q : ℕ) (c : Option Record)
    → q < lo
    → Chain m lo hi g ptrs
    → Chain (set m q c) lo hi g ptrs
chain_below q c below end = end
chain_below {m} q c below (link p ptr lo hi found rest) =
    link p ptr lo hi (get_elem?-set_ne m q p c (λ e. absurd (omega arith)) ∙ found)
      (chain_below q c (omega arith) rest)

clean_up_from_lem :
    {m : Memory} {lo hi : ℕ} {g : Option ℕ} {ptrs : List (Option ℕ)} (fuel : ℕ)
    → Chain m lo hi g ptrs
    → length ptrs ≤ fuel
    → (m' : Memory) × (clean_up_from fuel m g ≡ some m') × (live m' + length ptrs ≡ live m)
unfolding clean_up_from
clean_up_from_lem {m} fuel end enough = (m, refl, omega arith)
clean_up_from_lem zero (link p ptr lo hi found rest) enough = absurd (omega arith)
clean_up_from_lem {m} (suc fuel) (link p ptr lo hi found rest) enough =
    let (m', e, fewer) =
      clean_up_from_lem fuel (chain_below p none (omega arith) rest) (omega arith) in
    (m', rw (clean_up_from, found, ◌>>=◌) e, omega (arith, fewer, live-set m p _ found))

-- The drop of the domain frees the records of the list, each once, in as many rounds as there are.
pub clean_up_lem :
    {ptrs : List (Option ℕ)} {lo hi : ℕ} (fuel : ℕ) (s : DomainGlobal)
    → Chain s.memory lo hi s.records ptrs
    → length ptrs ≤ fuel
    → (m : Memory) × (clean_up fuel s ≡ some m) × (live m + length ptrs ≡ live s.memory)
unfolding clean_up
clean_up_lem fuel s chain enough = clean_up_from_lem fuel chain enough
