-- ===== src/Ads/Change.antt =====
-- internal/ads/changes.go: the state machine of a change, the change record, and the budget policy.
-- Go's time.Time is a number of nanoseconds. Entity.Version is the SHA-256 digest of the entity's
-- JSON; the digests are a parameter, and what is proved of them assumes no more than that two given
-- values do not collide.
pub mod Graph
pub mod Policy
use ad_agent.Prelude.{
  ℕ, String, ◌==◌, Bool, true, false, not, ◌&&◌, ◌||◌, Option, none, some, List, ◌≡◌, ◌↔◌, arith,
}
use ad_agent.Ads.Types.{Source, Entity, CreateRequest, WriteOutcome}
use ad_agent.Ads.Operations.{OperationPlan, OperationOutcome}

pub data ChangeKind : Type 0 where
  budget_change status_change create_change operation_change : ChangeKind

-- `string(kind)`
unfoldable pub change_kind_text : ChangeKind → String
change_kind_text budget_change = "budget"
change_kind_text status_change = "status"
change_kind_text create_change = "create"
change_kind_text operation_change = "operation"

pub data ChangeState : Type 0 where
  staged applying applied discarded expired failed indeterminate : ChangeState

pub ChangeState-discrete : Discrete ChangeState
ChangeState-discrete = hlevel

-- `==` on change states.
unfoldable pub same_state : ChangeState → ChangeState → Bool
same_state staged staged = true
same_state applying applying = true
same_state applied applied = true
same_state discarded discarded = true
same_state expired expired = true
same_state failed failed = true
same_state indeterminate indeterminate = true
same_state _ _ = false

pub same_state_iff : (a b : ChangeState) → (same_state a b ≡ true) ↔ (a ≡ b)
unfolding same_state
same_state_iff applying b = ground arith
same_state_iff _ b = ground arith

-- CanTransition
unfoldable pub can_transition : ChangeState → ChangeState → Bool
unfolding same_state
can_transition staged to =
    same_state to applying || same_state to discarded || same_state to expired
can_transition applying to =
    same_state to applied
    || same_state to failed
    || same_state to indeterminate
    || same_state to expired
can_transition indeterminate to = same_state to applied || same_state to failed
can_transition _ to = false

-- SHA-256 over the JSON of a value, in hex.
pub record Digests (D : Type 0) : Type 0 where
  pub entity_version : Entity D → String
  pub plan_version : OperationPlan D → String

pub record Change (D : Type 0) : Type 0 where
  pub id : String
  pub session_id : String
  pub source : Source
  pub kind : ChangeKind
  pub before : Option (Entity D)
  pub after : Option (Entity D)
  pub parent : Option (Entity D)
  pub create : Option (CreateRequest D)
  pub created : Option (Entity D)
  pub state : ChangeState
  pub reason : String
  pub currency : String
  pub spend_increasing : Bool
  pub created_at : ℕ
  pub expires_at : ℕ
  pub approved_at : Option ℕ
  pub approved_by : String
  pub attempt_id : String
  pub outcome : Option WriteOutcome
  pub operation : Option (OperationPlan D)
  pub operation_outcome : Option OperationOutcome
  pub note : String

abbrev pub same_version : {D : Type 0} ⦃dig : Digests D⦄ → Entity D → Entity D → Bool
same_version ⦃dig⦄ a b = dig.entity_version a == dig.entity_version b
