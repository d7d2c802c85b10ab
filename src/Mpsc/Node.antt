-- ===== src/Mpsc/Node.antt =====
-- src/queues/mpsc/jiffy/node.rs: one entry of a buffer. `none` is a panic.
use nolock.Prelude.{ℕ, zero, suc, ◌≡◌, refl, Option, none, some}

pub data NodeState : Type 0 where
  empty set handled : NodeState

unfoldable pub to_u8 : NodeState → ℕ
to_u8 empty = 0
to_u8 NodeState.set = 1
to_u8 handled = 2

unfoldable pub from_u8 : ℕ → Option NodeState
from_u8 zero = some empty
from_u8 (suc zero) = some NodeState.set
from_u8 (suc (suc zero)) = some handled
from_u8 (suc (suc (suc n))) = none

pub record Node {ℓ} (A : Type ℓ) : Type ℓ where
  pub content : Option A  -- `data`
  pub is_set : ℕ

module _ {ℓ} {A : Type ℓ} where
  unfoldable pub new : Node A
  unfolding to_u8
  new = record { content = none; is_set = to_u8 empty }

  unfoldable pub get_state : Node A → Option NodeState
  unfolding from_u8
  get_state n = from_u8 n.is_set

  unfoldable pub store : Node A → A → Node A
  unfolding to_u8
  store n x = record n { content = some x; is_set = to_u8 NodeState.set }

  -- The item, where there is one, and the node; a panic where the state says so and there is none.
  unfoldable pub load : Node A → Option (Option A × Node A)
  unfolding get_state to_u8
  load n = elim (get_state n) [
    | none ↦ none
    | some s ↦ elim s [
      | empty ↦ some (none, n)
      | handled ↦ some (none, n)
      | NodeState.set ↦ elim n.content [
        | none ↦ none
        | some x ↦ some (some x, record { content = none; is_set = to_u8 handled })
      ]
    ]
  ]

-- Every state is read back from its number.
pub state_round_trip : (s : NodeState) → from_u8 (to_u8 s) ≡ some s
unfolding from_u8 to_u8
state_round_trip empty = refl
state_round_trip NodeState.set = refl
state_round_trip handled = refl
