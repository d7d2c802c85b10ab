-- ===== src/ThreadData/Linked/Reading.antt =====
-- What `List::get` of src/thread_data/storage/list.rs finds.
use nolock.Prelude.{
  ℕ, zero, suc, ◌+◌, ◌<◌, ◌≡◌, ◌≢◌, refl, sym, ap, ◌∙◌, true, false, Option, none, some, List, [],
  ◌∷◌, length, get_elem?, ◌==◌, ◌>>=◌, if◌then◌else◌, ltb, arith, inl, inr, Bool-cases,
}
use nolock.ThreadData.Linked.{Entry, Chain, new, get_from, get}

-- Where the entry at `i` of `n` leads.
abbrev pub follower : ℕ → ℕ → Option ℕ
follower n i = if ltb (suc i) n then some (suc i) else none

pub follower_last : (n i : ℕ) → n ≡ suc i → follower n i ≡ none
follower_last n i e = ground arith

pub follower_more : (n i : ℕ) → suc i < n → follower n i ≡ some (suc i)
follower_more n i lt = ground arith

pub follower_new : (n i : ℕ) → i < n → suc i ≢ n → follower n i ≡ follower (suc n) i
follower_new n i lt ne = ground arith

module _ {ℓ} {T : Type ℓ} where
  -- The first entry of an id.
  abbrev pub find : List (Entry T) → ℕ → Option T
  find [] id = none
  find (e ∷ es) id = let rest = find es id in if e.id == id then some e.content else rest

  abbrev pub first_entry : List (Entry T) → Option ℕ
  first_entry [] = none
  first_entry (e ∷ es) = some 0

  -- The entries stand in the order in which they are linked, and hold the map.
  pub record Stores (m : ℕ → Option T) (s : Chain T) : Type ℓ where
    pub head : s.entries ≡ first_entry s.nodes
    pub linked :
        (i : ℕ) (e : Entry T) → get_elem? s.nodes i ≡ some e → e.next ≡ follower (length s.nodes) i
    pub found : (id : ℕ) → find s.nodes id ≡ m id

  pub new-Stores : Stores (λ id. none) (new {T = T})
  new-Stores = record { head = refl; linked = λ i e f. cc; found = λ id. refl }

  -- From `i` on the memory is `l`.
  abbrev From : List (Entry T) → ℕ → List (Entry T) → Type ℓ
  From nodes i l = (j : ℕ) → get_elem? nodes (i + j) ≡ get_elem? l j

  at_first :
      (nodes : List (Entry T)) (i : ℕ) (e : Entry T) (es : List (Entry T))
      → From nodes i (e ∷ es)
      → get_elem? nodes i ≡ some e
  at_first nodes i e es from =
      let same : i ≡ i + 0 = omega arith in ap (get_elem? nodes) same ∙ from 0

  From-next :
      (nodes : List (Entry T)) (i : ℕ) (e : Entry T) (es : List (Entry T))
      → From nodes i (e ∷ es)
      → From nodes (suc i) es
  From-next nodes i e es from j =
      let same : suc i + j ≡ i + suc j = omega arith in ap (get_elem? nodes) same ∙ from (suc j)

  get_from_hit :
      (fuel : ℕ) (nodes : List (Entry T)) (i : ℕ) (e : Entry T) (id : ℕ)
      → get_elem? nodes i ≡ some e
      → (e.id == id) ≡ true
      → get_from (suc fuel) nodes i id ≡ some (some e.content)
  unfolding get_from
  get_from_hit fuel nodes i e id at hit = rw (at, ◌>>=◌, hit) refl

  get_from_end :
      (fuel : ℕ) (nodes : List (Entry T)) (i : ℕ) (e : Entry T) (id : ℕ)
      → get_elem? nodes i ≡ some e
      → (e.id == id) ≡ false
      → e.next ≡ none
      → get_from (suc fuel) nodes i id ≡ some none
  unfolding get_from
  get_from_end fuel nodes i e id at miss end = rw (at, ◌>>=◌, miss, end) refl

  get_from_more :
      (fuel : ℕ) (nodes : List (Entry T)) (i : ℕ) (e : Entry T) (id next : ℕ)
      → get_elem? nodes i ≡ some e
      → (e.id == id) ≡ false
      → e.next ≡ some next
      → get_from (suc fuel) nodes i id ≡ get_from fuel nodes next id
  unfolding get_from
  get_from_more fuel nodes i e id next at miss more = rw (at, ◌>>=◌, miss, more) refl

  -- The loop of `get` finds what stands there.
  get_from_lem :
      (fuel : ℕ) (nodes : List (Entry T)) (i : ℕ) (e : Entry T) (es : List (Entry T)) (id : ℕ)
      → From nodes i (e ∷ es)
      → ((i : ℕ) (c : Entry T) → get_elem? nodes i ≡ some c → c.next ≡ follower (length nodes) i)
      → length nodes ≡ i + length (e ∷ es)
      → length es < fuel
      → get_from fuel nodes i id ≡ some (find (e ∷ es) id)
  get_from_lem zero nodes i e es id from linked size enough = absurd (omega arith)
  get_from_lem (suc fuel) nodes i e [] id from linked size enough =
      let at = at_first nodes i e [] from in
      elim (Bool-cases (e.id == id)) [
        | inl hit ↦ rw hit (get_from_hit fuel nodes i e id at hit)
        | inr miss ↦ rw miss (
            get_from_end fuel nodes i e id at miss
              (linked i e at ∙ follower_last (length nodes) i (omega (arith, size))))
      ]
  get_from_lem (suc fuel) nodes i e (f ∷ fs) id from linked size enough =
      let at = at_first nodes i e (f ∷ fs) from in
      elim (Bool-cases (e.id == id)) [
        | inl hit ↦ rw hit (get_from_hit fuel nodes i e id at hit)
        | inr miss ↦ rw miss (
            get_from_more fuel nodes i e id (suc i) at miss
              (linked i e at ∙ follower_more (length nodes) i (omega (arith, size)))
            ∙ get_from_lem fuel nodes (suc i) f fs id (From-next nodes i e (f ∷ fs) from) linked
                (omega (arith, size)) (omega arith))
      ]

  pub get-Stores : {m : ℕ → Option T} {s : Chain T} (id : ℕ) → Stores m s → get s id ≡ some (m id)
  unfolding get
  get-Stores {m} {s} id st = go s.nodes refl
    where
      go : (l : List (Entry T)) → l ≡ s.nodes → get s id ≡ some (m id)
      go [] e =
          rw (st.head ∙ ap first_entry (sym e)) (ap some (ap (λ l. find l id) e ∙ st.found id))
      go (f ∷ fs) e = rw (st.head ∙ ap first_entry (sym e)) (
          get_from_lem (length s.nodes) s.nodes 0 f fs id
            (λ j.
              let same : 0 + j ≡ j = omega arith in
              ap (get_elem? s.nodes) same ∙ ap (λ l. get_elem? l j) (sym e))
            st.linked (omega (arith, ap length e)) (omega (arith, ap length e))
          ∙ ap some (ap (λ l. find l id) e ∙ st.found id))
