-- ===== src/ThreadData/Tests.antt =====
-- Runs of src/thread_data.rs at concrete inputs, over the linked list.
use nolock.Prelude.{
  ℕ, suc, zero, ◌≡◌, ◌≢◌, none, some, List, [], ◌∷◌, refl, get_elem?, some-injective, arith,
}
use nolock.ThreadData.{get, get_or, put}
use nolock.ThreadData.Laws.{calls, get_or-stays, get-calls}
use nolock.ThreadData.Target.{from_raw, to_raw, entry, target_round_trip}
use nolock.ThreadData.Linked
use nolock.ThreadData.Linked.{Chain}
use nolock.ThreadData.Linked.Laws.{backend, insert-Stores}
use nolock.ThreadData.Linked.Reading.{new-Stores, Stores}

-- The data of a thread is the number of those before it.
abbrev ticket : ℕ → ℕ × ℕ
ticket n = (n, suc n)

get_or-stays_example :
    (x : ℕ) × (s1 : Chain ℕ) × (w1 : ℕ) × (s2 : Chain ℕ) × (w2 : ℕ) × (get_or backend ticket 7
        Linked.new 0
      ≡ some (x, s1, w1))
    × (calls backend ticket (8 ∷ 7 ∷ 9 ∷ []) s1 w1 ≡ some (s2, w2))
    × (get backend s2 7 ≡ some (some x))
    × (get_or backend ticket 7 s2 w2 ≡ some (x, s2, w2))
get_or-stays_example =
    get_or-stays backend ticket (λ id. none) 7 (8 ∷ 7 ∷ 9 ∷ []) Linked.new 0 new-Stores

abbrev eight_nine : List ℕ
eight_nine = 8 ∷ 9 ∷ []

absent_7 : (i : ℕ) → get_elem? eight_nine i ≢ some 7
absent_7 zero e = let same : ◌≡◌ {A = ℕ} 8 7 = some-injective _ _ e in absurd (omega arith)
absent_7 (suc zero) e = let same : ◌≡◌ {A = ℕ} 9 7 = some-injective _ _ e in absurd (omega arith)
absent_7 (suc (suc i)) e = cc

get-calls_example :
    (s : Chain ℕ) × (w : ℕ) × (calls backend ticket eight_nine Linked.new 0 ≡ some (s, w))
    × (get backend s 7 ≡ get backend Linked.new 7)
get-calls_example =
    get-calls backend ticket (λ id. none) 7 eight_nine Linked.new 0 new-Stores absent_7

insert-Stores_example :
    (s : Chain ℕ) × (Linked.insert Linked.new 7 5 ≡ some (5, s)) × Stores (put (λ id. none) 7 5) s
insert-Stores_example = insert-Stores 7 5 new-Stores refl

target_round_trip_example : from_raw (to_raw (entry 4096)) ≡ entry 4096
target_round_trip_example = target_round_trip (entry 4096) refl (omega arith)
