-- ===== src/Store/Changes/Claims.antt =====
-- How often a change was claimed for execution, read off the audit table.
use ad_agent.Prelude.{
  ℕ, suc, ◌+◌, ◌≤◌, String, ◌==◌, ◌≡◌, Option, none, some, List, [], ◌∷◌, ◌++◌, arith,
  if◌then◌else◌,
}
use ad_agent.Ads.Change.{staged, applying, same_state, same_state_iff, can_transition, Change}
use ad_agent.Store.Tables.{ChangeRow, AuditRow, Tables, find}
use ad_agent.Store.Changes.{audit_of}
use ad_agent.Store.Changes.Audit.{entries, entries-append, Walk, inserted, moved, IsLogged, Agrees}

module _ {D : Type 0} where
  -- The versions that were recorded in the state `applying`.
  unfoldable pub claims : List (Change D) → ℕ
  claims [] = 0
  claims (c ∷ es) = let rest = claims es in if same_state c.state applying then suc rest else rest

  pub claims-append :
      (es : List (Change D)) (c : Change D)
      → claims (es ++ c ∷ []) ≡ claims es + (if same_state c.state applying then 1 else 0)
  unfolding claims
  claims-append [] c = ground arith
  claims-append (x ∷ es) c = ground (arith, claims-append es c)

  pub claims-entries :
      (k : String) (rows : List (AuditRow D)) (c : Change D) (now : ℕ)
      → claims (entries k (rows ++ audit_of c now ∷ []))
        ≡ claims (entries k rows)
          + (if c.id == k then (if same_state c.state applying then 1 else 0) else 0)
  claims-entries k rows c now = rw entries-append (ground (arith, claims-append (entries k rows) c))

  -- Along a walk a change is claimed at most once, and not before it has left `staged`.
  Walk-claims :
      {es : List (Change D)} {c : Change D}
      → Walk es c
      → (claims es ≤ 1) × (c.state ≡ staged → claims es ≡ 0)
  unfolding claims can_transition
  Walk-claims {c = c} (inserted st e) = ground (arith, same_state_iff c.state applying)
  Walk-claims {c = c} (moved {es = es} {b = b} w step e) =
      ground (arith, Walk-claims w, claims-append es c, same_state_iff c.state applying)

  claims-Agrees : (o : Option (ChangeRow D)) (es : List (Change D)) → Agrees o es → claims es ≤ 1
  unfolding claims
  claims-Agrees none es a = ground arith
  claims-Agrees (some r) es a = (Walk-claims a.0).0

  pub claims_once : (t : Tables D) → IsLogged t → (k : String) → claims (entries k t.audit) ≤ 1
  claims_once t w k = claims-Agrees (find k t.changes) (entries k t.audit) (w.agrees k)
