-- ===== src/Mpsc/Jiffy/Closing.antt =====
-- The drop of the second half of a queue of src/queues/mpsc/jiffy.rs.
use nolock.Prelude.{
  ℕ, zero, suc, ◌+◌, ◌-◌, ◌<◌, ◌≤◌, ◌≡◌, refl, sym, ap, ◌∙◌, true, none, some, List, length,
  get_elem?, set, arith, length-set, get_elem?-set_self, get_elem?-set_ne, dec_lt, ℕ_discrete,
  ◌>>=◌,
}
use nolock.Mpsc.BufferList.{Memory, deallocate_all}
use nolock.Mpsc.Jiffy.{Channel, last_from, drop_sender, drop_receiver}
use nolock.Mpsc.Jiffy.Holds.{Layout, Holds}

-- Every place of `n` from `hb` on is freed.
abbrev pub Freed {ℓ} : {A : Type ℓ} → ℕ → ℕ → Memory A → Type ℓ
Freed hb n m = (p : ℕ) → hb ≤ p → p < n → get_elem? m p ≡ some none

module _ {ℓ} {A : Type ℓ} where
  Freed-set :
      (m : Memory A) (p n : ℕ) → length m ≡ n → p < n → Freed (suc p) n m → Freed p n (set m p none)
  Freed-set m p n same inside freed q lo hi = elim (ℕ_discrete q p) [
    | yes here ↦ ap (get_elem? (set m p none)) here ∙ get_elem?-set_self m p none (omega arith)
    | no other ↦ get_elem?-set_ne m p q none (λ e. other (sym e)) ∙ freed q (omega arith) hi
  ]

  module _ {size c hb : ℕ} {l : List A} {m0 : Memory A} (lay : Layout size c hb l m0) where
    -- The buffers from the `k`-th one on back to the first are freed, each once.
    deallocate_all_lem :
        (k fuel p : ℕ) (m : Memory A)
        → p ≡ hb + k
        → p < length m0
        → k < fuel
        → length m ≡ length m0
        → ((q : ℕ) → q ≤ p → get_elem? m q ≡ get_elem? m0 q)
        → Freed (suc p) (length m0) m
        → (m' : Memory A) × (deallocate_all fuel m (some p) ≡ some m') × Freed hb (length m0) m'
    unfolding deallocate_all
    deallocate_all_lem k zero p m at inside lt same kept freed = absurd (omega arith)
    deallocate_all_lem zero (suc fuel) p m at inside lt same kept freed =
        let (b, found, h) = lay.buffers p (omega arith) inside in
        let there : get_elem? m p ≡ some (some b) = kept p (omega arith) ∙ found in
        (
          set m p none,
          rw (deallocate_all, there, ◌>>=◌, h.first (omega arith)) refl,
          λ q lo hi. Freed-set m p (length m0) same inside freed q (omega arith) hi,
        )
    deallocate_all_lem (suc k) (suc fuel) p m at inside lt same kept freed =
        let (b, found, h) = lay.buffers p (omega arith) inside in
        let there : get_elem? m p ≡ some (some b) = kept p (omega arith) ∙ found in
        let (m', e, all) =
          deallocate_all_lem k fuel (hb + k) (set m p none) refl (omega arith) (omega arith)
            (length-set m p none ∙ same)
            (λ q le. get_elem?-set_ne m p q none (λ e. absurd (omega arith)) ∙ kept q (omega arith))
            (λ q lo hi. Freed-set m p (length m0) same inside freed q (omega arith) hi) in
        (
          m',
          rw (deallocate_all, there, ◌>>=◌, h.behind (hb + k) (omega arith) (omega arith)) e,
          all,
        )

    last_from_lem :
        (fuel p end : ℕ)
        → hb ≤ p
        → p ≤ end
        → suc end ≡ length m0
        → end < p + fuel
        → last_from fuel m0 p ≡ some end
    unfolding last_from
    last_from_lem zero p end lo le last enough = absurd (omega arith)
    last_from_lem (suc fuel) p end lo le last enough =
        let (b, found, h) = lay.buffers p lo (omega arith) in
        elim (dec_lt p end) [
          | yes lt ↦
              rw (last_from, found, ◌>>=◌, h.before (omega arith))
                (last_from_lem fuel (suc p) end (omega arith) lt last (omega arith))
          | no ge ↦
              let here : p ≡ end = omega arith in
              rw (last_from, found, ◌>>=◌, h.last (omega arith), here) refl
        ]

    Freed-from_end :
        (end : ℕ)
        → suc end ≡ length m0
        → (m' : Memory A) × (deallocate_all (length m0) m0 (some end) ≡ some m')
          × Freed hb (length m0) m'
    Freed-from_end end last =
        let inside : hb < length m0 = lay.head_in in
        deallocate_all_lem (end - hb) (length m0) end m0 (omega arith) (omega arith) (omega arith)
          refl (λ q le. refl) (λ q lo hi. absurd (omega arith))

  module _ {size c hb : ℕ} {l : List A} where
    -- Where one half has left, the drop of the other frees every buffer that is left, and none twice, whichever
    -- half it is and whatever items are there.
    pub drop-Freed :
        (s : Channel A)
        → Holds size c hb l s
        → s.closed ≡ true
        → (m : Memory A) × (drop_sender s ≡ some (record s { memory = m }))
          × (drop_receiver s ≡ some (record s { memory = m }))
          × Freed hb (length s.memory) m
    unfolding drop_sender drop_receiver
    drop-Freed s h shut =
        let (m, e, freed) = Freed-from_end h.layout s.tail_of_queue h.last_at in
        let last =
          last_from_lem h.layout (length s.memory) s.head_of_queue s.tail_of_queue
            (omega (arith, h.head_at)) (omega (arith, h.head_at, h.last_at, h.layout.head_in))
            h.last_at (omega (arith, h.last_at)) in
        (m, rw (shut, e) refl, rw (shut, last, ◌>>=◌, e) refl, freed)
