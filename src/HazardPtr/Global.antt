-- ===== src/HazardPtr/Global.antt =====
-- src/hazard_ptr/record.rs and src/hazard_ptr/domain/global.rs: the list of records of all threads, in a
-- memory in which a freed record is `none`. An operation runs alone. `none` as an answer is an access to a
-- freed record, or the end of the fuel of a loop.
pub mod Laws
pub mod Protecting
use nolock.Prelude.{
  ℕ, zero, suc, Bool, true, false, ◌==◌, Option, none, some, List, [], ◌∷◌, ◌++◌, get_elem?, set,
  length, ◌>>=◌,
}

-- A null pointer is `none`.
pub record Record : Type 0 where
  pub ptr : Option ℕ
  pub next : Option ℕ

abbrev pub Memory : Type 0
Memory = List (Option Record)

pub record DomainGlobal : Type 0 where
  pub memory : Memory
  pub records : Option ℕ

abbrev pub deref : Memory → ℕ → Option Record
deref m p = do cell ← get_elem? m p; cell

unfoldable pub boxed_empty : Record
boxed_empty = record { ptr = none; next = none }

-- `Record::reset`
unfoldable pub reset : Memory → ℕ → Option Memory
reset m p = do r ← deref m p; some (set m p (some (record r { ptr = none })))

-- `record.ptr.store`
unfoldable pub store_ptr : Memory → ℕ → Option ℕ → Option Memory
store_ptr m p v = do r ← deref m p; some (set m p (some (record r { ptr = v })))

-- Whether two pointers are the same one.
abbrev pub same_ptr : Option ℕ → Option ℕ → Bool
same_ptr none none = true
same_ptr none (some q) = false
same_ptr (some p) none = false
same_ptr (some p) (some q) = p == q

-- The loop of `Guard::protect` on the guard's record, with what the shared pointer holds at every load; the answer has
-- the guard's pointer. `none` is also the end of the loads.
unfoldable pub protect_loop : Memory → ℕ → Option ℕ → List (Option ℕ) → Option (Memory × Option ℕ)
protect_loop m p protect_ptr [] = none
protect_loop m p protect_ptr (n_ptr ∷ loads) = do
  m' ← store_ptr m p protect_ptr
  elim (same_ptr n_ptr protect_ptr) [
    | true ↦ some (m', protect_ptr)
    | false ↦ protect_loop m' p n_ptr loads
  ]

unfoldable pub protect : Memory → ℕ → List (Option ℕ) → Option (Memory × Option ℕ)
protect m p [] = none
protect m p (protect_ptr ∷ loads) = protect_loop m p protect_ptr loads

unfoldable pub new : DomainGlobal
new = record { memory = []; records = none }

-- A value is put into the set, unless it is null.
abbrev pub insert : Option ℕ → List ℕ → List ℕ
insert none plist = plist
insert (some v) plist = v ∷ plist

-- The loop of `get_protections`; the set is the list of its values.
unfoldable pub protections_from : ℕ → Memory → Option ℕ → Option (List ℕ)
protections_from fuel m none = some []
protections_from zero m (some p) = none
protections_from (suc fuel) m (some p) = do
  r ← deref m p
  rest ← protections_from fuel m r.next
  some (insert r.ptr rest)

unfoldable pub get_protections : ℕ → DomainGlobal → Option (List ℕ)
get_protections fuel s = protections_from fuel s.memory s.records

-- The loop of `append_record`, from the record `last_record` on.
unfoldable pub append_from : ℕ → Memory → ℕ → ℕ → Option Memory
append_from zero m last_record n_record_ptr = none
append_from (suc fuel) m last_record n_record_ptr = do
  r ← deref m last_record
  elim r.next [
    | some l ↦ append_from fuel m l n_record_ptr
    | none ↦ some (set m last_record (some (record r { next = some n_record_ptr })))
  ]

unfoldable pub append_record : ℕ → DomainGlobal → ℕ → Option DomainGlobal
append_record fuel s n_record_ptr = elim s.records [
  | none ↦ some (record s { records = some n_record_ptr })
  | some first ↦ do m ← append_from fuel s.memory first n_record_ptr; some (record s { memory = m })
]

-- `TLDomain::generate_new_record`: the record, and the list with it.
unfoldable pub generate_new_record : ℕ → DomainGlobal → Option (ℕ × DomainGlobal)
generate_new_record fuel s = do
  let n_record_ptr = length s.memory
  s' ← append_record fuel (record s { memory = s.memory ++ (some boxed_empty ∷ []) }) n_record_ptr
  some (n_record_ptr, s')

-- The loop of `clean_up`.
unfoldable pub clean_up_from : ℕ → Memory → Option ℕ → Option Memory
clean_up_from fuel m none = some m
clean_up_from zero m (some p) = none
clean_up_from (suc fuel) m (some p) = do r ← deref m p; clean_up_from fuel (set m p none) r.next

-- `Drop for DomainGlobal`
unfoldable pub clean_up : ℕ → DomainGlobal → Option Memory
clean_up fuel s = clean_up_from fuel s.memory s.records
