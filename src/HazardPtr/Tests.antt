-- ===== src/HazardPtr/Tests.antt =====
-- Runs of src/hazard_ptr/domain/global.rs at concrete inputs.
use nolock.Prelude.{ℕ, ◌+◌, ◌≡◌, refl, Option, none, some, [], ◌∷◌, length, set, arith}
use nolock.HazardPtr.Global.{
  Memory, DomainGlobal, generate_new_record, protect, get_protections, clean_up,
}
use nolock.HazardPtr.Global.Laws.{
  Chain, end, link, protected, live, generate_new_record-Chain, clean_up_lem,
}
use nolock.HazardPtr.Global.Protecting.{settled, get_protections-protect}

-- Two records, of which the second one protects a pointer.
abbrev two_records : DomainGlobal
two_records = record {
  memory =
      some (record { ptr = none; next = some 1 })
      ∷ some (record { ptr = some 291; next = none })
      ∷ [];
  records = some 0;
}

two_records-Chain : Chain two_records.memory 0 2 (some 0) (none ∷ some 291 ∷ [])
two_records-Chain =
    link 0 none (omega arith) (omega arith) refl
      (link 1 (some 291) (omega arith) (omega arith) refl end)

generate_new_record-Chain_example :
    (s : DomainGlobal) × (generate_new_record 2 two_records ≡ some (2, s))
    × Chain s.memory 0 (length s.memory) s.records (none ∷ some 291 ∷ none ∷ [])
generate_new_record-Chain_example =
    generate_new_record-Chain 2 two_records two_records-Chain (omega arith)

-- The shared pointer changes from 5 to 6 before the guard has it.
get_protections-protect_example :
    (m : Memory) × (w : Option ℕ) × (protect two_records.memory 0 (some 5 ∷ some 6 ∷ some 6 ∷ [])
      ≡ some (m, w))
    × (settled (some 5) (some 6 ∷ some 6 ∷ []) ≡ some w)
    × (get_protections 2 (record two_records { memory = m })
        ≡ some (protected (set (none ∷ some 291 ∷ []) 0 w)))
get_protections-protect_example =
    get_protections-protect two_records 2 0 0 two_records-Chain refl (omega arith) (some 5) (some 6)
      [] []

clean_up_lem_example : (m : Memory) × (clean_up 2 two_records ≡ some m) × (live m + 2 ≡ 2)
clean_up_lem_example = clean_up_lem 2 two_records two_records-Chain (omega arith)
