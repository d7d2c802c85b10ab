-- ===== src/ThreadData.antt =====
-- src/thread_data.rs: data for each thread, over any storage. `id` is `Id::new().as_u64()` of the thread
-- that calls, which the standard library gives; `E` is what the caller's `create` works on. `none` is
-- a fault of the storage.
pub mod Laws
pub mod Linked
pub mod Target
mod Tests
use nolock.Prelude.{ℕ, Option, none, some, ◌==◌, if◌then◌else◌, ◌≡◌, ◌>>=◌}

-- What is stored for each thread, and that with something more.
abbrev pub put {ℓ} : {T : Type ℓ} → (ℕ → Option T) → ℕ → T → ℕ → Option T
put m id x other = if id == other then some x else m other

-- The trait `StorageBackend`, with what is relied on: the storage stands for a map from ids, `get`
-- reads it, and `insert` of a new id puts the data there.
pub record StorageBackend {ℓ} (S T : Type ℓ) : Type (ℓ + 1) where
  pub get : S → ℕ → Option (Option T)
  pub insert : S → ℕ → T → Option (T × S)
  pub Stores : (ℕ → Option T) → S → Type ℓ
  pub get_lem : {m : ℕ → Option T} {s : S} (id : ℕ) → Stores m s → get s id ≡ some (m id)
  pub insert_lem :
      {m : ℕ → Option T} {s : S} (id : ℕ) (x : T)
      → Stores m s
      → m id ≡ none
      → (s' : S) × (insert s id x ≡ some (x, s')) × Stores (put m id x) s'

module _ {ℓ} {S T : Type ℓ} (backend : StorageBackend S T) where
  unfoldable pub get : S → ℕ → Option (Option T)
  get storage id = backend.get storage id

  unfoldable pub get_or : {E : Type ℓ} → (E → T × E) → ℕ → S → E → Option (T × S × E)
  get_or create id storage world = elim (backend.get storage id) [
    | none ↦ none
    | some found ↦ elim found [
      | some d ↦ some (d, storage, world)
      | none ↦ do
        let (x, world') = create world
        (d, storage') ← backend.insert storage id x
        some (d, storage', world')
    ]
  ]
