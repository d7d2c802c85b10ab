-- ===== src/Mpmc/Unbounded/Retiring.antt =====
-- What the drop of the receiver of src/queues/mpmc/unbounded.rs does to the linked buffers.
use nolock.Prelude.{
  ℕ, zero, suc, ◌+◌, ◌<◌, ◌≤◌, ◌≡◌, refl, sym, ◌∙◌, true, ◌∷◌, Bool, Option, none, some, List,
  get_elem?, set, length, arith, get_elem?-set_self, get_elem?-set_ne, length-set, lt_of_get_elem?,
  dec_lt,
}
use nolock.Mpmc.Unbounded.{Buffer, is_last, retire, retire_all}
use nolock.Mpmc.Unbounded.Chain.{Chain, last, more, frame}
use nolock.Mpmc.Unbounded.Receiving.{parts}

module _ {ℓ} {A : Type ℓ} where
  -- From its first buffer on, a chain is retired, each buffer once, in as many rounds as there are buffers.
  pub retire_all-Chain :
      {n k : ℕ} (fuel h tail : ℕ) (g : List ℕ) (rx tx : ℕ) {strict : Bool}
      {m : List (Option (Buffer A))} {p : ℕ} {l : List A}
      → Chain n k m strict p l
      → length m ≤ p + fuel
      → (m' : List (Option (Buffer A))) × (g' : List ℕ) × (retire_all fuel
            (parts m h tail g rx tx)
            p
          ≡ some (parts m' h tail g' rx tx))
        × ((t : ℕ) → suc t ≡ length m → is_last t g' ≡ true)
        × (length m' ≡ length m)
        × ((i : ℕ) → p ≤ i → i < length m → get_elem? m' i ≡ some none)
        × ((i : ℕ) → i < p → get_elem? m' i ≡ get_elem? m i)
  unfolding retire_all retire
  retire_all-Chain zero h tail g rx tx (last at q end filled) le = absurd (omega arith)
  retire_all-Chain zero h tail g rx tx {m = m} {p = p} (more at q filled c) le =
      absurd (omega (arith, lt_of_get_elem? m p _ at))
  retire_all-Chain (suc fuel) h tail g rx tx {m = m} {p = p} (last at q end filled) le = (
    set m p none,
    p ∷ g,
    rw (retire_all, at) refl,
    (λ t e. ground (arith, end)),
    length-set m p none,
    (λ i lo hi.
        let same : i ≡ p = omega arith in rw same (get_elem?-set_self m p none (omega arith))),
    (λ i lt. get_elem?-set_ne m p i none (omega arith)),
  )
  retire_all-Chain (suc fuel) h tail g rx tx {m = m} {p = p} (more at q filled c) le =
      let c1 =
        frame {m' = set m p none} (length-set m p none)
          (λ i lo. get_elem?-set_ne m p i none (omega arith)) c in
      let (m', g', e, newest, size, gone, kept) =
        retire_all-Chain fuel h tail (p ∷ g) rx tx c1 (omega (arith, length-set m p none)) in
      (
        m',
        g',
        rw (retire_all, at) e,
        (λ t e. newest t (e ∙ sym (length-set m p none))),
        size ∙ length-set m p none,
        (λ i lo hi. elim (dec_lt p i) [
          | yes lt ↦ gone i lt (omega (arith, length-set m p none))
          | no ge ↦
              let same : i ≡ p = omega arith in
              rw same (kept p (omega arith) ∙ get_elem?-set_self m p none (omega arith))
        ]),
        (λ i lt. kept i (omega arith) ∙ get_elem?-set_ne m p i none (omega arith)),
      )
