-- ===== src/ThreadData/Linked/Laws.antt =====
-- The linked list of src/thread_data/storage/list.rs stores a map from ids.
use nolock.Prelude.{
  ℕ, zero, suc, ◌+◌, ◌<◌, ◌≤◌, ◌≡◌, ◌≢◌, refl, sym, ap, ◌∙◌, subst, Option, none, some, List, [],
  ◌∷◌, ◌++◌, length, get_elem?, set, ◌==◌, if◌then◌else◌, arith, inl, inr, ℕ_discrete,
  length-append, length-set, get_elem?-append_lt, get_elem?-append_cases, get_elem?-set_self,
  get_elem?-set_ne, get_elem?_of_lt, some-injective, if-eq, if-ne,
}
use nolock.ThreadData.{StorageBackend, put}
use nolock.ThreadData.Linked.{Entry, Chain, get, append_from, insert}
use nolock.ThreadData.Linked.Reading.{
  follower, follower_last, follower_more, follower_new, find, first_entry, Stores, get-Stores,
}

module _ {ℓ} {T : Type ℓ} where
  append_from_end :
      (fuel : ℕ) (nodes : List (Entry T)) (i new_entry : ℕ) (e : Entry T)
      → get_elem? nodes i ≡ some e
      → e.next ≡ none
      → append_from (suc fuel) nodes i new_entry
        ≡ some (set nodes i (record e { next = some new_entry }))
  unfolding append_from
  append_from_end fuel nodes i new_entry e at end = rw (at, end) refl

  append_from_more :
      (fuel : ℕ) (nodes : List (Entry T)) (i new_entry next : ℕ) (e : Entry T)
      → get_elem? nodes i ≡ some e
      → e.next ≡ some next
      → append_from (suc fuel) nodes i new_entry ≡ append_from fuel nodes next new_entry
  unfolding append_from
  append_from_more fuel nodes i new_entry next e at more = rw (at, more) refl

  -- The loop of `insert` walks to the last of the `n` linked entries.
  append_from_lem :
      (fuel n : ℕ) (nodes : List (Entry T)) (i new_entry : ℕ)
      → ((i : ℕ) (c : Entry T) → get_elem? nodes i ≡ some c → i < n → c.next ≡ follower n i)
      → i < n
      → n ≤ length nodes
      → n < i + fuel
      → (k : ℕ) × (e : Entry T) × (n ≡ suc k)
        × (get_elem? nodes k ≡ some e)
        × (append_from fuel nodes i new_entry
            ≡ some (set nodes k (record e { next = some new_entry })))
  append_from_lem zero n nodes i new_entry linked lt le enough = absurd (omega arith)
  append_from_lem (suc fuel) n nodes i new_entry linked lt le enough =
      let (e, at) = get_elem?_of_lt nodes i (omega arith) in
      elim (ℕ_discrete n (suc i)) [
        | yes end ↦ (
          i,
          e,
          end,
          at,
          append_from_end fuel nodes i new_entry e at (linked i e at lt ∙ follower_last n i end),
        )
        | no ne ↦
            let (k, f, last, at_k, r) =
              append_from_lem fuel n nodes (suc i) new_entry linked (omega arith) le
                (omega arith) in
            (
              k,
              f,
              last,
              at_k,
              append_from_more fuel nodes i new_entry (suc i) e at
                    (linked i e at lt ∙ follower_more n i (omega arith))
                  ∙ r,
            )
      ]

  find-set :
      (l : List (Entry T)) (k : ℕ) (e : Entry T) (next : Option ℕ) (id : ℕ)
      → get_elem? l k ≡ some e
      → find (set l k (record e { next = next })) id ≡ find l id
  find-set [] k e next id at = refl
  find-set (f ∷ l) zero e next id at =
      ap (λ c. if c.id == id then some c.content else find l id) (sym (some-injective _ _ at))
  find-set (f ∷ l) (suc k) e next id at =
      ap (λ r. if f.id == id then some f.content else r) (find-set l k e next id at)

  find-append :
      (l : List (Entry T)) (e : Entry T) (id : ℕ)
      → find l e.id ≡ none
      → find (l ++ (e ∷ [])) id ≡ put (find l) e.id e.content id
  find-append [] e id fresh = refl
  find-append (f ∷ l) e id fresh = elim (ℕ_discrete e.id id) [
    | yes same ↦
        if-ne f.id id (some f.content) (λ g. not_first (g ∙ sym same))
        ∙ find-append l e id fresh'
        ∙ if-eq e.id id (find l id) same
        ∙ sym (if-eq e.id id (find (f ∷ l) id) same)
    | no ne ↦
        ap (λ r. if f.id == id then some f.content else r)
          (find-append l e id fresh' ∙ if-ne e.id id (some e.content) ne)
        ∙ sym (if-ne e.id id (some e.content) ne)
  ]
    where
      not_first : f.id ≢ e.id
      not_first g = clash (sym (if-eq f.id e.id (find l e.id) g) ∙ fresh)
        where
          clash : {x : T} → some x ≡ none → ⊥
          clash c = cc

      fresh' : find l e.id ≡ none
      fresh' = sym (if-ne f.id e.id (some f.content) not_first) ∙ fresh

  first_entry-set :
      (l : List (Entry T)) (k : ℕ) (e : Entry T) → first_entry (set l k e) ≡ first_entry l
  first_entry-set [] k e = refl
  first_entry-set (f ∷ l) zero e = refl
  first_entry-set (f ∷ l) (suc k) e = refl

  abbrev entry_of : ℕ → T → Entry T
  entry_of id x = record { id = id; content = x; next = none }

  -- What the memory is after `insert`: a new entry at the end, and the one at `k` leads to it.
  insert-linked :
      (l : List (Entry T)) (k : ℕ) (e c : Entry T) (i id : ℕ) (x : T)
      → ((i : ℕ) (c : Entry T) → get_elem? l i ≡ some c → c.next ≡ follower (length l) i)
      → length l ≡ suc k
      → get_elem? (set (l ++ (entry_of id x ∷ [])) k (record e { next = some (length l) })) i
        ≡ some c
      → c.next ≡ follower (suc (length l)) i
  insert-linked l k e c i id x linked last at =
      let nodes = l ++ (entry_of id x ∷ []) in
      let size = length-append l (entry_of id x ∷ []) in
      elim (ℕ_discrete k i) [
        | yes same ↦
            let hit : record e { next = some (length l) } ≡ c = some-injective _ _ (
              sym (get_elem?-set_self nodes k _ (omega (arith, size, last)))
              ∙ ap (get_elem? (set nodes k (record e { next = some (length l) }))) same
              ∙ at) in
            let ends : length l ≡ suc i = omega (arith, last) in
            sym (ap (λ t. t.next) hit)
            ∙ ap some ends
            ∙ sym (follower_more (suc (length l)) i (omega (arith, last)))
        | no ne ↦
            elim (get_elem?-append_cases l (entry_of id x) i c
              (sym (get_elem?-set_ne nodes k i _ ne) ∙ at)) [
                | inl (lt, old) ↦
                    linked i c old ∙ follower_new (length l) i lt (omega (arith, last))
                | inr (end, is_new) ↦
                    ap (λ t. t.next) is_new ∙ sym (follower_last (suc (length l)) i (omega arith))
              ]
      ]

  insert_at :
      {m : ℕ → Option T} (l : List (Entry T)) (id : ℕ) (x : T)
      → Stores m (record { entries = first_entry l; nodes = l })
      → m id ≡ none
      → (s' : Chain T) × (insert (record { entries = first_entry l; nodes = l }) id x
          ≡ some (x, s'))
        × Stores (put m id x) s'
  unfolding insert
  insert_at {m} [] id x st fresh = (
    record { entries = some 0; nodes = entry_of id x ∷ [] },
    refl,
    record {
      head = refl;
      linked = λ i e at. only i e at;
      found = λ other. ap (λ r. if id == other then some x else r) (st.found other);
    },
  )
    where
      only :
          (i : ℕ) (e : Entry T) → get_elem? (entry_of id x ∷ []) i ≡ some e → e.next ≡ follower 1 i
      only zero e at = ap (λ t. t.next) (sym (some-injective _ _ at))
      only (suc i) e at = cc
  insert_at {m} (f ∷ fs) id x st fresh =
      let l = f ∷ fs in
      let nodes = l ++ (entry_of id x ∷ []) in
      let size = length-append l (entry_of id x ∷ []) in
      let (k, e, last, at, r) =
        append_from_lem (length nodes) (length l) nodes 0 (length l)
          (λ i c here lt. st.linked i c (sym (get_elem?-append_lt l _ i lt) ∙ here)) (omega arith)
          (omega (arith, size)) (omega (arith, size)) in
      let nodes' = set nodes k (record e { next = some (length l) }) in
      (
        record { entries = some 0; nodes = nodes' },
        rw r refl,
        record {
          head = sym (first_entry-set nodes k _);
          linked = λ i c here.
              insert-linked l k e c i id x st.linked last here
              ∙ ap (λ n. follower n i)
                  (omega (arith, size, length-set nodes k (record e { next = some (length l) })));
          found = λ other.
              find-set nodes k e _ other at
              ∙ find-append l (entry_of id x) other (st.found id ∙ fresh)
              ∙ ap (λ r. if id == other then some x else r) (st.found other);
        },
      )

  -- A new id is put behind the others.
  pub insert-Stores :
      {m : ℕ → Option T} {s : Chain T} (id : ℕ) (x : T)
      → Stores m s
      → m id ≡ none
      → (s' : Chain T) × (insert s id x ≡ some (x, s')) × Stores (put m id x) s'
  insert-Stores {m} {s} id x st fresh =
      let same : record { entries = first_entry s.nodes; nodes = s.nodes } ≡ s =
        ap (λ p. record s { entries = p }) (sym st.head) in
      subst (λ t. (s' : Chain T) × (insert t id x ≡ some (x, s')) × Stores (put m id x) s') same
        (insert_at s.nodes id x (subst (Stores m) (sym same) st) fresh)

  -- The list is a storage for thread data.
  abbrev pub backend : StorageBackend (Chain T) T
  backend = record {
    get = get;
    insert = insert;
    Stores = Stores;
    get_lem = get-Stores;
    insert_lem = insert-Stores;
  }
