-- ===== src/Manager/Scope.antt =====
-- internal/manager/scope.go: requests for an account go to the binding of that account, and to no
-- other. The bindings share one world and one store; the map of the bindings is an association list.
pub mod Requests
pub mod Bound
pub mod Sound
pub mod Once
pub mod Staged
use Prim.Native.String
use Prim.Native.String.{◌++◌}
use ad_agent.Prelude.{
  ℕ, String, ◌==◌, Bool, true, false, not, ◌&&◌, ◌||◌, Option, none, some, List, [], ◌∷◌, length,
  is_some, eqb, ltb, if◌then◌else◌,
}
use ad_agent.Prelude.Text.{byte_length}
use ad_agent.Prelude.Result.{Result, ok, err}
use ad_agent.Ads.Decimal.{Decimal}
use ad_agent.Ads.Types.{
  Level, advertiser, campaign, ad_group, ad, same_level, level_text, Source, Account, Entity,
  EntityQuery, CreateRequest,
}
use ad_agent.Ads.Change.{ChangeKind, budget_change, status_change, Change, Digests}
use ad_agent.Ads.Metrics.{Metrics, roas}
use ad_agent.Ads.Report.{ReportQuery, Report, validate_query}
use ad_agent.Store.Session.{Session, Seen, seen}
use ad_agent.Service.Exec.{Exec, ◌>>=◌, ◌>>◌, pure, fail, raise, reject}
use ad_agent.Service.Platform.{Platform, Env, ask, call, attempt, fetch}
use ad_agent.Service.Limits.{Service}
use ad_agent.Service.Stage.{stage, stage_create}
use ad_agent.Service.Apply.{apply}
use ad_agent.Service.Settle.{reconcile, discard}
use ad_agent.Sandbox.Backend.{valid_environment}
use ad_agent.Runtime.Models.{no_model}

abbrev pub max_accounts : ℕ
max_accounts = 50

-- The backend of a binding with the store that the scope gives it, the parts of a `Changes`, and the
-- other calls of a Reader.
pub record Binding (D W : Type 0) : Type 0 where
  pub platform : Platform D W
  pub service : Service D
  pub list : EntityQuery → W → Result (List (Entity D)) × W
  pub report : ReportQuery → W → Result (Report D) × W

pub record Scope (D W : Type 0) : Type 0 where
  pub id : String
  pub name : String
  pub bindings : List (String × Binding D W)

-- Scope.Source
unfoldable pub source_of : {D W : Type 0} → Scope D W → Source
source_of s = record { backend = "manager"; environment = s.id; account_id = s.id }

-- provenanceKey
unfoldable pub provenance_key : String → Level → String → String
unfolding level_text
provenance_key account level id = account ++ ("/" ++ (level_text level ++ ("/" ++ id)))

unfoldable pub wrong_account : Account → Bool
wrong_account a = a.id == "" || not (a.source.account_id == a.id)

module _ {D W : Type 0} where
  -- The loop over the bindings of NewScope. A nil reader has no binding here.
  unfoldable pub bind_all :
      List (Binding D W)
      → List (String × Binding D W)
      → Exec (Env D W) (List (String × Binding D W))
  unfolding wrong_account
  bind_all [] done = pure done
  bind_all (b ∷ bs) done = do
    read ← attempt b.platform.account
    a ← elim read [ err e ↦ fail "invalid manager account binding" | ok a ↦ pure a ]
    reject (wrong_account a) "invalid manager account binding"
    reject (is_some (seen a.id done)) "duplicate manager advertiser"
    bind_all bs ((a.id, b) ∷ done)

  -- NewScope, with a store
  unfoldable pub new_scope : String → String → List (Binding D W) → Exec (Env D W) (Scope D W)
  unfolding bind_all valid_environment
  new_scope id name bindings = do
    reject
        (not (valid_environment id)
          || name == ""
          || eqb (length bindings) 0
          || ltb max_accounts (length bindings))
        "invalid manager scope"
    bound ← bind_all bindings []
    pure (record { id = id; name = name; bindings = bound })

  abbrev pub bound_or_fail : Option (Binding D W) → Exec (Env D W) (Binding D W)
  bound_or_fail none = fail "advertiser_outside_manager"
  bound_or_fail (some b) = pure b

  -- Scope.binding
  unfoldable pub binding_of : Scope D W → String → Exec (Env D W) (Binding D W)
  binding_of s account = bound_or_fail (seen account s.bindings)

  -- Scope.List
  unfoldable pub list : Scope D W → String → EntityQuery → Exec (Env D W) (List (Entity D))
  list s account q = do b ← binding_of s account; call (b.list q)

  -- Scope.Get
  unfoldable pub get : Scope D W → String → Level → String → Exec (Env D W) (Entity D)
  get s account level id = do
    b ← binding_of s account
    e ← call (b.platform.get level id)
    reject (not (e.account_id == account)) "advertiser_scope_mismatch"
    pure e

  -- Scope.Report
  unfoldable pub report : Scope D W → String → ReportQuery → Exec (Env D W) (Report D)
  report s account q = do b ← binding_of s account; call (b.report q)

  abbrev pub seen_or : String → Option (Seen D) → Exec (Env D W) (Seen D)
  seen_or e none = fail e
  seen_or e (some s) = pure s
