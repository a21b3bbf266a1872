-- ===== src/Store/Leases.antt =====
-- internal/store/store.go: Lease and Release. A lease is kept until a time in whole seconds, and
-- may be taken over only when that second has passed.
pub mod Exclusion
use ad_agent.Prelude.{
  ℕ, ◌/◌, String, ◌==◌, Bool, true, not, ◌&&◌, List, [], ◌∷◌, ltb, if◌then◌else◌,
}
use ad_agent.Prelude.Result.{Result, ok, err}
use ad_agent.Store.Tables.{LeaseRow, database_error}

-- time.Time.Unix of a time in nanoseconds.
abbrev pub unix : ℕ → ℕ
unix t = t / 1_000_000_000

keep : LeaseRow → Result (List LeaseRow) → Result (List LeaseRow)
keep l (ok ls) = ok (l ∷ ls)
keep l (err e) = err e

-- INSERT ... ON CONFLICT(id) DO UPDATE ... WHERE leases.until_unix < now, and RowsAffected = 1
unfoldable pub take_lease : String → String → ℕ → ℕ → List LeaseRow → Result (List LeaseRow)
unfolding keep
take_lease id owner until now [] = ok (record { id = id; owner = owner; until_unix = until } ∷ [])
take_lease id owner until now (l ∷ ls) =
    if l.id == id
    then if ltb l.until_unix now
      then ok (record l { owner = owner; until_unix = until } ∷ ls)
      else err "session_busy"
    else keep l (take_lease id owner until now ls)

-- Lease
unfoldable pub lease : Bool → String → String → ℕ → ℕ → List LeaseRow → Result (List LeaseRow)
unfolding take_lease
lease fault id owner until now ls =
    if fault then err database_error else take_lease id owner (unix until) (unix now) ls

-- Release: DELETE FROM leases WHERE id = ? AND owner = ?, whose error is dropped.
delete_lease : String → String → List LeaseRow → List LeaseRow
delete_lease id owner [] = []
delete_lease id owner (l ∷ ls) =
    let rest = delete_lease id owner ls in if l.id == id && l.owner == owner then rest else l ∷ rest

unfoldable pub release : Bool → String → String → List LeaseRow → List LeaseRow
unfolding delete_lease
release fault id owner ls = if fault then ls else delete_lease id owner ls
