-- ===== src/Store/Tables.antt =====
-- internal/store/store.go: the tables that the change service reads and writes.
use ad_agent.Prelude.{ℕ, String, ◌==◌, Bool, Option, none, some, List, [], ◌∷◌, if◌then◌else◌}
use ad_agent.Ads.Types.{Source}
use ad_agent.Ads.Change.{ChangeState, Change}
use ad_agent.Ads.Change.Policy.{Policy}

-- changes(id TEXT PRIMARY KEY, session_id, state, payload)
pub record ChangeRow (D : Type 0) : Type 0 where
  pub id : String
  pub session_id : String
  pub state : ChangeState
  pub payload : Change D

-- audit(seq, change_id, at, payload), in the order of seq
pub record AuditRow (D : Type 0) : Type 0 where
  pub change_id : String
  pub at : ℕ
  pub payload : Change D

-- leases(id TEXT PRIMARY KEY, owner, until_unix)
pub record LeaseRow : Type 0 where
  pub id : String
  pub owner : String
  pub until_unix : ℕ

-- budget_policies(source TEXT PRIMARY KEY, payload)
pub record Tables (D : Type 0) : Type 0 where
  pub changes : List (ChangeRow D)
  pub audit : List (AuditRow D)
  pub leases : List LeaseRow
  pub budget_policies : List (Source × Policy D)

-- Which statements of one operation the database refuses.
pub record Faults : Type 0 where
  pub begin : Bool
  pub first : Bool
  pub second : Bool
  pub commit : Bool

abbrev pub database_error : String
database_error = "database error"

abbrev pub no_rows : String
no_rows = "sql: no rows in result set"

-- SELECT ... WHERE id = ?
unfoldable pub find : {D : Type 0} → String → List (ChangeRow D) → Option (ChangeRow D)
find k [] = none
find k (r ∷ rows) = if r.id == k then some r else find k rows
