-- ===== src/Sandbox/Backend.antt =====
-- internal/sandbox/backend.go: the entities of one sandbox account. Whether the caller's context has
-- ended is an argument (`cancelled`).
pub mod Hierarchy
pub mod Replaced
pub mod Kept
pub mod Listed
pub mod Runs
use Prim.Native.Char.{code}
use Prim.Native.String
use ad_agent.Prelude.{
  ℕ, String, ◌==◌, Bool, true, false, not, ◌&&◌, ◌||◌, Option, none, some, List, [], ◌∷◌, map, ltb,
  leb, eqb, if◌then◌else◌,
}
use ad_agent.Prelude.Text.{byte_length}
use ad_agent.Prelude.Result.{Result, Check, ok, err, ◌>>=◌, ◌>>◌, refuse}
use ad_agent.Prelude.Sorting.{sort}
use ad_agent.Ads.Decimal.{Decimal, is_negative}
use ad_agent.Ads.Types.{
  Level, advertiser, campaign, ad_group, ad, other_level, same_level, is_valid_level, level_text,
  Account, Entity, EntityQuery, WriteRequest, WriteOutcome, CreateRequest, is_status, check_entity,
  validate_create,
}
use ad_agent.Ads.Change.{Digests, same_version}
use ad_agent.Ads.Analysis.{text_less}
use ad_agent.Store.Session.{seen}
use ad_agent.Sandbox.Rules.{RuleState, put}
use ad_agent.Sandbox.Settle.{Books}
use ad_agent.Runtime.Patterns.{is_alphanumeric, all_runes}

-- The fields of Backend that are modelled; the entities and the facts stand with the other fields
-- that the rules use, and the balance and the transactions with those of the settlement.
pub record Backend (D : Type 0) : Type 0 where
  pub environment : String
  pub account : Account
  pub clock : ℕ
  pub simulation_start : ℕ
  pub rules : RuleState D
  pub books : Books D

abbrev pub context_error : String
context_error = "context canceled"

abbrev pub not_found : String
not_found = "entity not found in the bound account"

-- ValidEnvironment
unfoldable pub valid_environment : String → Bool
valid_environment s =
    not (ltb (byte_length s) 1 || ltb 64 (byte_length s))
    && all_runes (λ c. is_alphanumeric c || eqb c 95 || eqb c 45) s

-- `ads.WriteOutcome{State: state, Message: message}`
unfoldable pub outcome : String → String → WriteOutcome
outcome state message = record { state = state; request_id = ""; message = message }

module _ {D : Type 0} where
  -- The entity that the zero value of a map stands for.
  abbrev pub no_entity : Entity D
  no_entity = record {
    id = "";
    account_id = "";
    level = other_level "";
    parent_id = "";
    name = "";
    status = "";
    budget = none;
    budget_mode = "";
    objective = "";
  }

  -- f.entities[e.ID] = e
  abbrev pub with_entity : Entity D → Backend D → Backend D
  with_entity e b = record b { rules = record b.rules { entities = put e.id e b.rules.entities } }

  -- Backend.Get
  unfoldable pub get : Bool → Level → String → Backend D → Result (Entity D)
  get cancelled l id b = do
    refuse cancelled context_error
    e ← elim (seen id b.rules.entities) [ none ↦ err not_found | some e ↦ ok e ]
    refuse (not (same_level e.level l)) not_found
    ok e

  unfoldable pub is_asked : EntityQuery → Entity D → Bool
  is_asked q e = same_level e.level q.level && (q.parent_id == "" || e.parent_id == q.parent_id)

  unfoldable pub asked : EntityQuery → List (String × Entity D) → List (Entity D)
  unfolding is_asked
  asked q [] = []
  asked q ((k, e) ∷ es) = let rest = asked q es in if is_asked q e then e ∷ rest else rest

  unfoldable pub by_id : Entity D → Entity D → Bool
  by_id a b = text_less a.id b.id

  -- Backend.List
  unfoldable pub list : Bool → EntityQuery → Backend D → Result (List (Entity D))
  unfolding is_valid_level
  list cancelled q b = do
    refuse cancelled context_error
    refuse (not (is_valid_level q.level) || same_level q.level advertiser) "invalid entity level"
    ok (sort by_id (asked q b.rules.entities))

  unfoldable pub wrong_parent : Entity D → Option (Entity D) → Bool
  wrong_parent e none = true
  wrong_parent e (some p) =
      same_level e.level ad_group && not (same_level p.level campaign)
      || same_level e.level ad && not (same_level p.level ad_group)

  -- Backend.validateNew
  unfoldable pub validate_new : List (String × Entity D) → Entity D → Check
  unfolding wrong_parent
  validate_new es e =
      if same_level e.level campaign
      then refuse (not (e.parent_id == "")) "campaign cannot have a parent"
      else refuse (wrong_parent e (seen e.parent_id es)) "invalid sandbox parent"

module _ {D : Type 0} ⦃dec : Decimal D⦄ where
  -- The entity that Create stores, with the digits that were drawn.
  unfoldable pub created_entity : String → String → CreateRequest D → Entity D
  unfolding level_text
  created_entity account drawn r = record {
    id = String.◌++◌ (level_text r.level) (String.◌++◌ "_sandbox_" drawn);
    account_id = account;
    level = r.level;
    parent_id = r.parent_id;
    name = r.name;
    status = r.status;
    budget = r.budget;
    budget_mode = r.budget_mode;
    objective = r.objective;
  }

  -- Backend.Create; none is a failure of the random source.
  unfoldable pub create :
      Bool → Option String → CreateRequest D → Backend D → Result (Entity D × Backend D)
  unfolding created_entity
  create cancelled drawn r b = do
    refuse cancelled context_error
    validate_create r
    digits ← elim drawn [ none ↦ err "random source" | some s ↦ ok s ]
    let e = created_entity b.account.id digits r
    check_entity e b.account.id
    validate_new b.rules.entities e
    ok (e, with_entity e b)

  module _ ⦃dig : Digests D⦄ where
    unfoldable pub restore_known : Entity D → Entity D → Backend D → Result (Backend D)
    restore_known old e b = do
      refuse (not (same_version (record old { budget = e.budget; status = e.status }) e))
          "invalid sandbox override"
      ok (with_entity e b)

    unfoldable pub restore_new : Entity D → Backend D → Result (Backend D)
    restore_new e b = do validate_new b.rules.entities e; ok (with_entity e b)

    -- Backend.Restore
    unfoldable pub restore : Entity D → Backend D → Result (Backend D)
    unfolding restore_known restore_new
    restore e b = do
      check_entity e b.account.id
      elim (seen e.id b.rules.entities) [
        | none ↦ restore_new e b
        | some old ↦ restore_known old e b
      ]

    unfoldable pub written_budget : Option D → Entity D → Result (Entity D)
    written_budget none e = err "invalid budget"
    written_budget (some v) e = do
      refuse (same_level e.level ad || is_negative v) "invalid budget"
      ok (record e { budget = some v })

    unfoldable pub written_status : String → Entity D → Result (Entity D)
    unfolding is_status
    written_status status e = do
      refuse (not (is_status status)) "invalid status"
      ok (record e { status = status })

    -- The `switch` of Write: the entity that is stored, or why it is refused.
    unfoldable pub written_entity : WriteRequest D → Entity D → Result (Entity D)
    unfolding written_budget written_status
    written_entity w e =
        if w.kind == "budget"
        then written_budget w.budget e
        else if w.kind == "status"
        then written_status w.status e
        else err "unsupported change"

    unfoldable pub stored : Result (Entity D) → Backend D → WriteOutcome × Backend D
    unfolding outcome
    stored (err message) b = (outcome "rejected" message, b)
    stored (ok e) b = (
      record { state = "acknowledged"; request_id = "sandbox-write"; message = "" },
      with_entity e b,
    )

    -- Backend.Write
    unfoldable pub write : Bool → WriteRequest D → Backend D → WriteOutcome × Backend D
    unfolding outcome written_entity stored
    write cancelled w b =
        if cancelled
        then (outcome "not_sent" "cancelled", b)
        else elim (seen w.target.id b.rules.entities) [
          | none ↦ (outcome "rejected" "target changed", b)
          | some e ↦
              if same_version e w.target
              then stored (written_entity w e) b
              else (outcome "rejected" "target changed", b)
        ]
