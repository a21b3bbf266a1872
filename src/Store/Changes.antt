-- ===== src/Store/Changes.antt =====
-- internal/store/store.go: InsertChange, Change, Changes and Transition. Each write of a change and
-- the audit row that records it stand in one transaction.
pub mod Rows
pub mod Cas
pub mod Exclusive
pub mod Audit
pub mod Claims
use ad_agent.Prelude.{
  ℕ, suc, String, ◌==◌, Bool, not, ◌&&◌, ◌||◌, Option, none, some, List, [], ◌∷◌, ◌++◌, eqb,
  is_some, if◌then◌else◌,
}
use ad_agent.Prelude.Result.{Result, ok, err, ◌>>◌, refuse}
use ad_agent.Ads.Change.{ChangeState, same_state, can_transition, Change}
use ad_agent.Store.Tables.{ChangeRow, AuditRow, Tables, Faults, database_error, no_rows, find}

module _ {D : Type 0} where
  abbrev pub row_of : Change D → ChangeRow D
  row_of c = record { id = c.id; session_id = c.session_id; state = c.state; payload = c }

  abbrev pub audit_of : Change D → ℕ → AuditRow D
  audit_of c now = record { change_id = c.id; at = now; payload = c }

  -- INSERT INTO changes VALUES(?,?,?,?), which the primary key refuses for a known id.
  unfoldable pub insert_change : Faults → Change D → ℕ → Tables D → Result (Tables D)
  insert_change f c now t = do
    refuse f.begin database_error
    refuse (f.first || is_some (find c.id t.changes)) database_error
    refuse f.second database_error
    refuse f.commit database_error
    ok (record t { changes = t.changes ++ row_of c ∷ []; audit = t.audit ++ audit_of c now ∷ [] })

  payload_of : Option (ChangeRow D) → Result (Change D)
  payload_of none = err no_rows
  payload_of (some r) = ok r.payload

  -- Store.Change
  unfoldable pub change : Bool → String → Tables D → Result (Change D)
  unfolding payload_of
  change fault id t = do refuse fault database_error; payload_of (find id t.changes)

  -- Store.Changes: newest first.
  unfoldable pub changes_of : String → List (ChangeRow D) → List (Change D)
  changes_of session [] = []
  changes_of session (r ∷ rows) =
      let rest = changes_of session rows in
      if r.session_id == session then rest ++ r.payload ∷ [] else rest

  -- WHERE id = ? AND state = ?
  abbrev pub hits : String → ChangeState → ChangeRow D → Bool
  hits id from r = r.id == id && same_state r.state from

  -- UPDATE changes SET state = ?, payload = ? WHERE id = ? AND state = ?
  unfoldable pub update_rows : ChangeState → Change D → List (ChangeRow D) → List (ChangeRow D)
  update_rows from c [] = []
  update_rows from c (r ∷ rows) =
      let rest = update_rows from c rows in
      if hits c.id from r then record r { state = c.state; payload = c } ∷ rest else r ∷ rest

  -- RowsAffected
  unfoldable pub affected : ChangeState → Change D → List (ChangeRow D) → ℕ
  affected from c [] = 0
  affected from c (r ∷ rows) =
      let rest = affected from c rows in if hits c.id from r then suc rest else rest

  -- Store.Transition
  unfoldable pub transition : Faults → ChangeState → Change D → ℕ → Tables D → Result (Tables D)
  transition f from c now t = do
    refuse (not (can_transition from c.state)) "illegal_change_transition"
    refuse f.begin database_error
    refuse f.first database_error
    refuse (not (eqb (affected from c t.changes) 1)) "change_state_conflict"
    refuse f.second database_error
    refuse f.commit database_error
    ok (record t { changes = update_rows from c t.changes; audit = t.audit ++ audit_of c now ∷ [] })
