-- ===== src/Service/Apply.antt =====
-- internal/agenthost/changes.go: Apply. The claim of the change in the store comes first, then at
-- most one mutating call, then the record of what came of it.
pub mod Sound
pub mod Ends
pub mod Guards
use ad_agent.Prelude.{
  ℕ, ◌+◌, String, ◌==◌, ◌≡◌, Bool, true, false, not, ◌&&◌, ◌||◌, Option, some, leb, if◌then◌else◌,
}
use Prim.Native.String.{◌++◌}
use ad_agent.Ads.Decimal.{Decimal}
use ad_agent.Ads.Types.{Account, Source, same_source}
use ad_agent.Ads.Change.{
  ChangeKind, create_change, operation_change, staged, applying, expired, same_state, Change,
  Digests,
}
use ad_agent.Service.Exec.{Exec, ◌>>=◌, ◌>>◌, pure, reject, finally}
use ad_agent.Service.Platform.{Platform, Env, ask, call, fetch, transition, lease, release}
use ad_agent.Service.Limits.{Service, refresh_policy}
use ad_agent.Service.Stage.{minutes}
use ad_agent.Service.Perform.{perform}

-- Whether the writer that the kind of change needs is nil.
abbrev pub lacks_writer : {D : Type 0} → Service D → ChangeKind → Bool
lacks_writer s create_change = not s.has_creator
lacks_writer s operation_change = not s.has_operator
lacks_writer s _ = not s.has_writer

abbrev pub lease_id : Account → String
lease_id a = "apply:" ++ (a.source.backend ++ (":" ++ (a.source.environment ++ (":" ++ a.id))))

-- The change as it is claimed.
abbrev pub claimed : {D : Type 0} → Change D → String → ℕ → String → Change D
claimed c operator now attempt = record c {
  state = applying;
  approved_at = some now;
  approved_by = operator;
  attempt_id = attempt;
}

module _ {D W : Type 0} ⦃p : Platform D W⦄ where
  -- An approval that comes too late.
  unfoldable pub expire : Change D → Exec (Env D W) (Change D)
  expire c = do let late = record c { state = expired }; transition staged late; pure late

  -- The record of what came of a claimed change.
  unfoldable pub record_result : Change D → Exec (Env D W) (Change D)
  record_result done = do transition applying done; pure done

module _ {D W : Type 0} ⦃p : Platform D W⦄ ⦃dec : Decimal D⦄ ⦃dig : Digests D⦄ where
  -- From the claim on: the change is `applying` in the store before anything is sent.
  unfoldable pub run_claimed : Service D → Change D → Exec (Env D W) (Change D)
  run_claimed s c = do transition staged c; done ← perform s c; record_result done

  unfoldable pub execute : Service D → Change D → String → Exec (Env D W) (Change D)
  execute s₀ c operator = do
    s ← refresh_policy s₀
    now ← ask p.now
    attempt ← ask (p.fresh_id "attempt")
    run_claimed s (claimed c operator now attempt)

  unfoldable pub approve : Service D → Change D → String → Exec (Env D W) (Change D)
  approve s c operator = do
    a ← call p.account
    reject (not (same_source a.source c.source)) "source_mismatch"
    reject (not (a.source.backend == "sandbox") && not s.policy.live_writes) "live_writes_disabled"
    reject (lacks_writer s c.kind) "writer_unavailable"
    owner ← ask (p.fresh_id "execution")
    now ← ask p.now
    lease (lease_id a) owner (now + minutes 1)
    finally (execute s c operator) (release (lease_id a) owner)

  -- Apply, from the change that the store has given.
  unfoldable pub admit : Service D → String → String → Change D → Exec (Env D W) (Change D)
  admit s session_id operator c = do
    reject (not (c.session_id == session_id) || operator == "") "approval_scope_mismatch"
    reject (not (same_state c.state staged)) "change_not_staged"
    now ← ask p.now
    if leb c.expires_at now then expire c else approve s c operator

  -- Apply
  unfoldable pub apply : Service D → String → String → String → Exec (Env D W) (Change D)
  apply s session_id id operator = do c ← fetch id; admit s session_id operator c
