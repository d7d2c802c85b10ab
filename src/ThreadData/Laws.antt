-- ===== src/ThreadData/Laws.antt =====
-- What the threads that share a storage of src/thread_data.rs get from it.
use nolock.Prelude.{
  ℕ, zero, suc, ◌≡◌, ◌≢◌, refl, sym, ap, ◌∙◌, Option, some, List, [], ◌∷◌, get_elem?, ◌>>=◌, if-eq,
  if-ne, ℕ_discrete, Option-cases, inl, inr,
}
use nolock.ThreadData.{StorageBackend, put, get, get_or}

module _ {ℓ} {S T E : Type ℓ} (backend : StorageBackend S T) (create : E → T × E) where
  -- The calls of `get_or` of the threads `ids`, one after the other.
  unfoldable pub calls : List ℕ → S → E → Option (S × E)
  calls [] storage world = some (storage, world)
  calls (id ∷ ids) storage world = do
    (d, storage', world') ← get_or backend create id storage world
    calls ids storage' world'

  -- What a call does: the thread then has the data `x`, and the data of every other one stays.
  pub record Kept (m : ℕ → Option T) (id : ℕ) (x : T) (s' : S) : Type ℓ where
    pub map : ℕ → Option T
    pub stores : backend.Stores map s'
    pub mine : map id ≡ some x
    pub stays : (k : ℕ) (y : T) → m k ≡ some y → map k ≡ some y
    pub others : (k : ℕ) → k ≢ id → map k ≡ m k

  get_or-Kept :
      (m : ℕ → Option T) (id : ℕ) (s : S) (w : E)
      → backend.Stores m s
      → (x : T) × (s' : S) × (w' : E) × (get_or backend create id s w ≡ some (x, s', w'))
        × Kept m id x s'
  unfolding get_or
  get_or-Kept m id s w st = elim (Option-cases (m id)) [
    | inr (x, e) ↦ (
      x,
      s,
      w,
      rw (get_or, backend.get_lem id st, e) refl,
      record { map = m; stores = st; mine = e; stays = λ k y f. f; others = λ k ne. refl },
    )
    | inl e ↦
        let (x, w') = create w in
        let (s', inserted, st') = backend.insert_lem id x st e in
        (
          x,
          s',
          w',
          rw (get_or, backend.get_lem id st, e, inserted) refl,
          record {
            map = put m id x;
            stores = st';
            mine = if-eq id id (m id) refl;
            stays = λ k y f. elim (ℕ_discrete id k) [
              | yes same ↦ cc (e, f, ap m same)
              | no ne ↦ if-ne id k (some x) ne ∙ f
            ];
            others = λ k ne. if-ne id k (some x) (λ same. ne (sym same));
          },
        )
  ]

  calls_keep :
      (ids : List ℕ) (m : ℕ → Option T) (s : S) (w : E)
      → backend.Stores m s
      → (s' : S) × (w' : E) × (m' : ℕ → Option T) × (calls ids s w ≡ some (s', w'))
        × backend.Stores m' s'
        × ((k : ℕ) (y : T) → m k ≡ some y → m' k ≡ some y)
        × ((k : ℕ) → ((i : ℕ) → get_elem? ids i ≢ some k) → m' k ≡ m k)
  unfolding calls
  calls_keep [] m s w st = (s, w, m, refl, st, λ k y e. e, λ k absent. refl)
  calls_keep (id ∷ ids) m s w st =
      let (x, s1, w1, e, kept) = get_or-Kept m id s w st in
      let (s2, w2, m2, f, st2, stays, others) = calls_keep ids kept.map s1 w1 kept.stores in
      (
        s2,
        w2,
        m2,
        rw (e, f) refl,
        st2,
        λ k y g. stays k y (kept.stays k y g),
        λ k absent.
            others k (λ i. absent (suc i))
            ∙ kept.others k (λ same. absent zero (ap some (sym same))),
      )

  -- On a storage that stands for a map, a call of `get_or` by any thread, then any such calls of any
  -- threads, succeed; from then on `get` and `get_or` of the first thread give what its first call
  -- gave, and create nothing.
  pub get_or-stays :
      (m : ℕ → Option T) (id : ℕ) (ids : List ℕ) (s : S) (w : E)
      → backend.Stores m s
      → (x : T) × (s1 : S) × (w1 : E) × (s2 : S) × (w2 : E) × (get_or backend create id s w
          ≡ some (x, s1, w1))
        × (calls ids s1 w1 ≡ some (s2, w2))
        × (get backend s2 id ≡ some (some x))
        × (get_or backend create id s2 w2 ≡ some (x, s2, w2))
  unfolding get get_or
  get_or-stays m id ids s w st =
      let (x, s1, w1, e, kept) = get_or-Kept m id s w st in
      let (s2, w2, m2, f, st2, stays, others) = calls_keep ids kept.map s1 w1 kept.stores in
      let found = backend.get_lem id st2 ∙ ap some (stays id x kept.mine) in
      (x, s1, w1, s2, w2, e, f, found, rw (get_or, found) refl)

  -- On a storage that stands for a map, the calls of `get_or` of some threads change nothing for a
  -- thread that is none of them.
  pub get-calls :
      (m : ℕ → Option T) (id : ℕ) (ids : List ℕ) (s : S) (w : E)
      → backend.Stores m s
      → ((i : ℕ) → get_elem? ids i ≢ some id)
      → (s' : S) × (w' : E) × (calls ids s w ≡ some (s', w'))
        × (get backend s' id ≡ get backend s id)
  unfolding get
  get-calls m id ids s w st absent =
      let (s', w', m', e, st', stays, others) = calls_keep ids m s w st in
      (s', w', e, backend.get_lem id st' ∙ ap some (others id absent) ∙ sym (backend.get_lem id st))
