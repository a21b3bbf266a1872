-- ===== src/Manager/Scope/Staged.antt =====
-- internal/manager/scope.go: what StageBudget and StageStatus have stored when they succeed.
use ad_agent.Prelude.{String, eq_iff, ◌≡◌, refl, Option, none, some, [], ◌∷◌, arith}
use ad_agent.Prelude.Result.{ok}
use ad_agent.Ads.Decimal.{Decimal}
use ad_agent.Ads.Types.{Level, Account, Entity}
use ad_agent.Ads.Change.{ChangeKind, budget_change, status_change, Change, Digests}
use ad_agent.Store.Session.{Session, Seen, seen}
use ad_agent.Service.Exec.{fail}
use ad_agent.Service.Exec.Triple.{
  Triple, Triple-result, Triple-pure, Triple-reject, Triple-bind, Triple-given, Triple-weaken,
}
use ad_agent.Service.Platform.{Platform, Env}
use ad_agent.Service.Safety.{IsSound}
use ad_agent.Service.Stored.{Stored, Triple-Preserves}
use ad_agent.Service.Keep.{keep_call}
use ad_agent.Service.Kinds.{Preserves-Kept}
use ad_agent.Service.Stage.Staged.{IsStaged, stage-IsStaged}
use ad_agent.Manager.Scope.{Scope, provenance_key, get, seen_or}
use ad_agent.Manager.Scope.Requests.{account_session, stage_for, stage_budget, stage_status}
use ad_agent.Manager.Scope.Sound.{binding_of-Preserves}

module _ {D : Type 0} ⦃dec : Decimal D⦄ ⦃dig : Digests D⦄ where
  -- A change that a manager's session has staged for one of its accounts, from an entity of that
  -- account, which the session has read, to `after`.
  pub record IsStagedFor (session : Session D) (account : String) (after : Entity D → Entity D)
      (kind : ChangeKind) (c : Change D) : Type 0 where
    pub target : Entity D
    pub own : target.account_id ≡ account
    pub by : Account
    pub read : Seen D
    pub known : seen (provenance_key account target.level target.id) session.provenance ≡ some read
    pub is_staged :
        IsStaged
          (account_session session by.source ((target.id, read) ∷ []))
          target
          (after target)
          kind
          c

module _ {D W : Type 0} ⦃p : Platform D W⦄ where
  get-own :
      (s : Scope D W) (account : String) (level : Level) (id : String)
      → Triple IsSound (get s account level id) (λ t e. IsSound e × (t.account_id ≡ account))
  unfolding get
  get-own s account level id =
      Triple-bind _ _ (Triple-Preserves (binding_of-Preserves s account)) (λ b.
        Triple-bind _ _ (Triple-Preserves (keep_call Preserves-Kept _)) (λ t.
          Triple-reject _ _ _ (λ same.
            Triple-pure t (λ e h. (h, ground (arith, same, eq_iff t.account_id account))))))

  seen_or-known :
      (x : String) (o : Option (Seen D))
      → Triple (IsSound {D = D} {W = W}) (seen_or x o) (λ v e. IsSound e × (o ≡ some v))
  unfolding fail
  seen_or-known x none = record { at = λ s h. tt }
  seen_or-known x (some v) = Triple-pure v (λ e h. (h, refl))

module _ {D W : Type 0} ⦃p : Platform D W⦄ ⦃dec : Decimal D⦄ ⦃dig : Digests D⦄ where
  stage_for-IsStagedFor :
      (s : Scope D W) (session : Session D) (account : String) (t : Entity D)
      (after : Entity D → Entity D) (kind : ChangeKind) (reason : String)
      → t.account_id ≡ account
      → Triple IsSound
          (stage_for s session account t (after t) kind reason)
          (λ c e. Stored c e × IsStagedFor session account after kind c)
  unfolding stage_for
  stage_for-IsStagedFor s session account t after kind reason own =
      Triple-bind _ _ (Triple-Preserves (binding_of-Preserves s account)) (λ b.
        Triple-bind _ _ (Triple-Preserves (keep_call Preserves-Kept _)) (λ a.
          Triple-bind _ _
            (seen_or-known _ (seen (provenance_key account t.level t.id) session.provenance))
            (λ x. Triple-given (λ known.
              Triple-weaken
                (λ c e h. (
                  h.0,
                  record {
                    target = t;
                    own = own;
                    by = a;
                    read = x;
                    known = known;
                    is_staged = h.1;
                  },
                ))
                (stage-IsStaged ⦃p = b.platform⦄ b.service
                  (account_session session a.source ((t.id, x) ∷ [])) t (after t) kind reason)))))

  budget-IsStagedFor :
      (s : Scope D W) (session : Session D) (account : String) (level : Level) (id : String)
      (amount : D) (currency reason : String)
      → Triple IsSound (stage_budget s session account level id amount currency reason) (λ c e.
        Stored c e
        × IsStagedFor session account (λ t. record t { budget = some amount }) budget_change c)
  unfolding stage_budget
  budget-IsStagedFor s session account level id amount currency reason =
      Triple-bind _ _ (get-own s account level id) (λ t. Triple-given (λ own.
        Triple-bind _ _ (Triple-Preserves (binding_of-Preserves s account)) (λ b.
          Triple-bind _ _ (Triple-Preserves (keep_call Preserves-Kept _)) (λ a.
            Triple-reject _ _ _ (λ quoted.
              stage_for-IsStagedFor s session account t (λ t. record t { budget = some amount })
                budget_change reason own)))))

  status-IsStagedFor :
      (s : Scope D W) (session : Session D) (account : String) (level : Level)
      (id status reason : String)
      → Triple IsSound (stage_status s session account level id status reason) (λ c e.
        Stored c e
        × IsStagedFor session account (λ t. record t { status = status }) status_change c)
  unfolding stage_status
  status-IsStagedFor s session account level id status reason =
      Triple-bind _ _ (get-own s account level id) (λ t. Triple-given (λ own.
        stage_for-IsStagedFor s session account t (λ t. record t { status = status }) status_change
          reason own))

  -- From a sound state, a change of a budget or of a status that a manager stages for an account,
  -- when it succeeds, is stored as it is returned: staged for the manager's session, from an entity
  -- of that account, which the session has read under the key of that account, to the same entity
  -- with the new budget or status.
  pub manager_stages :
      (s : Scope D W) (session : Session D) (account : String) (level : Level) (id : String)
      (amount : D) (currency status reason : String) (e : Env D W)
      → IsSound e
      → ((c : Change D)
          → (stage_budget s session account level id amount currency reason e).0 ≡ ok c
          → Stored c (stage_budget s session account level id amount currency reason e).1
            × IsStagedFor session account (λ t. record t { budget = some amount }) budget_change c)
        × ((c : Change D)
            → (stage_status s session account level id status reason e).0 ≡ ok c
            → Stored c (stage_status s session account level id status reason e).1
              × IsStagedFor session account (λ t. record t { status = status }) status_change c)
  manager_stages s session account level id amount currency status reason e h = (
    λ c eq.
        Triple-result
          (λ c e.
            Stored c e
            × IsStagedFor session account (λ t. record t { budget = some amount }) budget_change c)
          (budget-IsStagedFor s session account level id amount currency reason) e h eq,
    λ c eq.
        Triple-result
          (λ c e.
            Stored c e
            × IsStagedFor session account (λ t. record t { status = status }) status_change c)
          (status-IsStagedFor s session account level id status reason) e h eq,
  )
