-- ===== src/Service/Platform.antt =====
-- What the change service is given: the advertising backend behind the interfaces of
-- internal/ads (Reader, Writer, Creator, OperationPlanner, Operations), the clock, random ids, and
-- a database that may fail. All of it is one world that answers calls and moves on; nothing is
-- assumed of it. The mutating calls are recorded in `sent`, with the change that they were made for.
use ad_agent.Prelude.{ℕ, String, Bool, List, [], ◌∷◌, ◌++◌}
use ad_agent.Prelude.Result.{Result, Check, ok, err}
use ad_agent.Ads.Types.{Level, Account, Entity, WriteRequest, WriteOutcome, CreateRequest}
use ad_agent.Ads.Operations.{OperationRequest, OperationPlan, OperationOutcome}
use ad_agent.Ads.Change.{ChangeState, Change}
use ad_agent.Store.Tables.{Tables, Faults, LeaseRow}
use ad_agent.Store.Leases
use ad_agent.Store.Changes
use ad_agent.Service.Exec.{Exec}

pub record Platform (D W : Type 0) : Type 0 where
  pub account : W → Result Account × W
  pub get : Level → String → W → Result (Entity D) × W
  pub write : WriteRequest D → W → WriteOutcome × W
  pub create : CreateRequest D → W → Result (Entity D) × W
  pub plan_operation : OperationRequest D → W → Result (OperationPlan D) × W  -- Planner
  pub prepare_operation : OperationRequest D → W → Result (OperationPlan D) × W  -- Operator
  pub apply_operation : OperationPlan D → W → OperationOutcome × W
  pub reconcile_operation : OperationPlan D → OperationOutcome → W → Result Bool × W
  pub now : W → ℕ × W
  pub fresh_id : String → W → String × W  -- store.ID
  pub faults : W → Faults × W

pub data Mutation (D : Type 0) : Type 0 where
  written : WriteRequest D → Mutation D
  creation : CreateRequest D → Mutation D
  operation : OperationPlan D → Mutation D

pub record Sent (D : Type 0) : Type 0 where
  pub change_id : String
  pub mutation : Mutation D

pub record Env (D W : Type 0) : Type 0 where
  pub tables : Tables D
  pub world : W
  pub sent : List (Sent D)

module _ {D W A : Type 0} where
  -- A call that answers, and one that may fail; `attempt` hands the failure to the
  -- caller.
  unfoldable pub ask : (W → A × W) → Exec (Env D W) A
  ask f e = let (a, w) = f e.world in (ok a, record e { world = w })

  unfoldable pub call : (W → Result A × W) → Exec (Env D W) A
  call f e = let (r, w) = f e.world in (r, record e { world = w })

  unfoldable pub attempt : (W → Result A × W) → Exec (Env D W) (Result A)
  attempt f e = let (r, w) = f e.world in (ok r, record e { world = w })

  -- A mutating call for a change.
  unfoldable pub send : String → Mutation D → (W → A × W) → Exec (Env D W) A
  send id m f e =
      let (a, w) = f e.world in
      (ok a, record e { world = w; sent = e.sent ++ record { change_id = id; mutation = m } ∷ [] })

module _ {D W : Type 0} ⦃p : Platform D W⦄ where
  abbrev pub committed : Env D W → W → Result (Tables D) → Check × Env D W
  committed e w (ok t) = (ok tt, record e { tables = t; world = w })
  committed e w (err x) = (err x, record e { world = w })

  -- Store.InsertChange
  unfoldable pub insert_change : Change D → Exec (Env D W) (Unit {0})
  insert_change c e =
      let (f, w) = p.faults e.world in
      let (now, w') = p.now w in committed e w' (Changes.insert_change f c now e.tables)

  -- Store.Transition
  unfoldable pub transition : ChangeState → Change D → Exec (Env D W) (Unit {0})
  transition from c e =
      let (f, w) = p.faults e.world in
      let (now, w') = p.now w in committed e w' (Changes.transition f from c now e.tables)

  -- Store.Change
  unfoldable pub fetch : String → Exec (Env D W) (Change D)
  fetch id e =
      let (f, w) = p.faults e.world in (Changes.change f.first id e.tables, record e { world = w })

  abbrev pub leased : Env D W → W → Result (List LeaseRow) → Check × Env D W
  leased e w (ok ls) = (ok tt, record e { tables = record e.tables { leases = ls }; world = w })
  leased e w (err x) = (err x, record e { world = w })

  -- Store.Lease, until a given time
  unfoldable pub lease : String → String → ℕ → Exec (Env D W) (Unit {0})
  lease id owner until e =
      let (f, w) = p.faults e.world in
      let (now, w') = p.now w in
      leased e w' (Leases.lease f.first id owner until now e.tables.leases)

  -- Store.Release
  unfoldable pub release : String → String → Env D W → Env D W
  release id owner e =
      let (f, w) = p.faults e.world in
      record e {
        tables = record e.tables { leases = Leases.release f.first id owner e.tables.leases };
        world = w;
      }
