-- ===== src/Service/Stage/Staged.antt =====
-- What a Stage that succeeds has stored.
use ad_agent.Prelude.{String, ◌≡◌, refl, true, some, arith}
use ad_agent.Prelude.Result.{ok}
use ad_agent.Ads.Decimal.{Decimal}
use ad_agent.Ads.Types.{Entity, same_source→eq}
use ad_agent.Ads.Change.{ChangeKind, staged, Change, Digests, same_version}
use ad_agent.Ads.Change.Policy.{Policy, validate_change}
use ad_agent.Store.Session.{Session, seen}
use ad_agent.Service.Exec.Triple.{
  Triple, Triple-result, Triple-pure, Triple-reject, Triple-raise, Triple-bind, Triple-given,
}
use ad_agent.Service.Platform.{Platform, Env}
use ad_agent.Service.Limits.{Service}
use ad_agent.Service.Limits.Quiet.{refresh_policy-Quiet}
use ad_agent.Service.Safety.{IsSound, Quiet-Preserves}
use ad_agent.Service.Stored.{Stored, Triple-Preserves, insert_change-Stored}
use ad_agent.Service.Keep.{keep_ask, keep_call}
use ad_agent.Service.Kinds.{Preserves-Kept}
use ad_agent.Service.Stage.Read.{AsRead, stage-AsRead}
use ad_agent.Service.Stage.{own_account, stage, seen_as}

module _ {D : Type 0} ⦃dec : Decimal D⦄ ⦃dig : Digests D⦄ where
  -- A budget or status change as it is staged for a session.
  pub record IsStaged (session : Session D) (before after : Entity D) (kind : ChangeKind)
      (c : Change D) : Type 0 where
    pub state : c.state ≡ staged
    pub owner : c.session_id ≡ session.id
    pub source : c.source ≡ session.source
    pub of_kind : c.kind ≡ kind
    pub target : Entity D
    pub from : c.before ≡ some target
    pub to : c.after ≡ some after
    pub as_read : same_version target before ≡ true
    pub as_seen : seen_as (seen before.id session.provenance) target ≡ true
    pub policy : Policy D
    pub within : validate_change policy target after kind ≡ ok tt

module _ {D W : Type 0} ⦃p : Platform D W⦄ where
  own_account-source :
      (session : Session D)
      → Triple
          (IsSound {D = D} {W = W})
          (own_account session)
          (λ a e. IsSound e × (a.source ≡ session.source))
  unfolding own_account
  own_account-source session = Triple-bind _ _ (Triple-Preserves (keep_call Preserves-Kept _)) (λ a.
      Triple-reject _ _ _ (λ own.
        Triple-pure a (λ e h. (h, same_source→eq a.source session.source (ground (arith, own))))))

module _ {D W : Type 0} ⦃p : Platform D W⦄ ⦃dec : Decimal D⦄ ⦃dig : Digests D⦄ where
  pub stage-IsStaged :
      (s₀ : Service D) (session : Session D) (before after : Entity D) (kind : ChangeKind)
      (reason : String)
      → Triple
          (IsSound {W = W})
          (stage s₀ session before after kind reason)
          (λ c e. Stored c e × IsStaged session before after kind c)
  unfolding stage
  stage-IsStaged s₀ session before after kind reason =
      Triple-bind _ _ (Triple-Preserves (Quiet-Preserves (refresh_policy-Quiet s₀))) (λ s.
        Triple-bind _ _ (Triple-Preserves (keep_ask Preserves-Kept _)) (λ now.
          Triple-reject _ _ _ (λ fresh.
            Triple-bind _ _ (Triple-Preserves (keep_call Preserves-Kept _)) (λ current.
              Triple-reject _ _ _ (λ same. Triple-raise _ _ (λ u valid.
                Triple-bind _ _ (own_account-source session) (λ a. Triple-given (λ own.
                  Triple-bind _ _ (Triple-Preserves (keep_ask Preserves-Kept _)) (λ id.
                    Triple-bind _ _ (Triple-Preserves (keep_ask Preserves-Kept _)) (λ created.
                      Triple-bind _ _ (Triple-Preserves (keep_ask Preserves-Kept _)) (λ expires.
                        Triple-bind _ _ (insert_change-Stored _) (λ v. Triple-pure _ (λ e stored. (
                          stored,
                          record {
                            state = refl;
                            owner = refl;
                            source = own;
                            of_kind = refl;
                            target = current;
                            from = refl;
                            to = refl;
                            as_read = ground (arith, same);
                            as_seen = ground (arith, same);
                            policy = s.policy;
                            within = valid;
                          },
                        ))))))))))))))

  -- From a sound state, a Stage that returns a change and no error has stored exactly that change.
  -- It is staged, of the session and of its source, and leads to the entity asked for from the one
  -- that the backend answered in this run, which has the version that the caller passed and the one
  -- that the session has seen within the last 15 minutes. It has passed Policy.Validate under the
  -- limits stored for the account that the backend answered, or those of the composition where none
  -- are stored.
  pub stage-stores :
      (s : Service D) (session : Session D) (before after : Entity D) (kind : ChangeKind)
      (reason : String) (e : Env D W) {c : Change D}
      → IsSound e
      → (stage s session before after kind reason e).0 ≡ ok c
      → Stored c (stage s session before after kind reason e).1
        × IsStaged session before after kind c
        × AsRead s session before after kind e c
  stage-stores s session before after kind reason e h eq =
      let (stored, staged_so) =
        Triple-result (λ c e. Stored c e × IsStaged session before after kind c)
          (stage-IsStaged s session before after kind reason) e h eq in
      (
        stored,
        staged_so,
        Triple-result (λ c x. AsRead s session before after kind e c)
            (stage-AsRead s session before after kind reason e) e refl eq,
      )
