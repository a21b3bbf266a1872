-- ===== src/Service/Stage/Read.antt =====
-- internal/agenthost/changes.go: what a Stage that succeeds has read, in the run at hand: the account,
-- the limits in force, the clock and the target.
use ad_agent.Prelude.{
  ◌-◌, ◌≤◌, String, ◌≡◌, refl, true, false, Option, none, some, arith, Bool-cases, inl, inr,
}
use ad_agent.Prelude.Result.{Result, ok, err}
use ad_agent.Ads.Decimal.{Decimal}
use ad_agent.Ads.Types.{Account, Entity}
use ad_agent.Ads.Change.{ChangeKind, Change, Digests, same_version}
use ad_agent.Ads.Change.Policy.{Policy, validate_change}
use ad_agent.Store.Session.{Seen, Session, seen}
use ad_agent.Service.Exec.{Exec}
use ad_agent.Service.Exec.Triple.{
  Post, Triple, Triple-pure, Triple-reject, Triple-raise, Triple-bind, Triple-given,
}
use ad_agent.Service.Platform.{Platform, Env, ask, call}
use ad_agent.Service.Limits.{
  Service, policy_or, saved_policy, budget_policy, stored_policy, refresh_policy,
}
use ad_agent.Service.Stage.{minutes, is_stale, seen_as, stage}

module _ {D W : Type 0} where
  abbrev pub with_world : W → Env D W → Env D W
  with_world w e = record e { world = w }

  call-reads :
      {A : Type 0} (f : W → Result A × W) (e : Env D W)
      → Triple
          (λ x. x ≡ e)
          (call f)
          (λ a x. (x ≡ with_world (f e.world).1 e) × ((f e.world).0 ≡ ok a))
  unfolding call
  call-reads f e = record { at = λ x h. rw h (called (f e.world).0 _ refl) }
    where
      called :
          {A : Type 0} (r : Result A) (x : Env D W) {o : Result A}
          → o ≡ r
          → Post (λ a y. (y ≡ x) × (o ≡ ok a)) r x
      called (ok a) x h = (refl, h)
      called (err m) x h = tt

  ask-reads :
      {A : Type 0} (f : W → A × W) (e : Env D W)
      → Triple (λ x. x ≡ e) (ask f) (λ a x. (x ≡ with_world (f e.world).1 e) × (a ≡ (f e.world).0))
  unfolding ask
  ask-reads f e = record { at = λ x h. rw h (refl, refl) }

  anyhow : {A : Type 0} {P : Env D W → Type 0} (m : Exec (Env D W) A) → Triple P m (λ a x. Unit {0})
  anyhow m = record { at = λ x h. ended (m x).0 (m x).1 }
    where
      ended : {A : Type 0} (r : Result A) (x : Env D W) → Post (λ (a : A) y. Unit {0}) r x
      ended (ok a) x = tt
      ended (err m) x = tt

module _ {D W : Type 0} ⦃p : Platform D W⦄ where
  -- The world once the limits have been read.
  abbrev pub after_limits : Env D W → W
  after_limits e = (p.faults (p.account e.world).1).1

  -- The limits that are stored for the account that answers, or those of the composition.
  pub record InForce (fallback : Policy D) (e : Env D W) (policy : Policy D) : Type 0 where
    pub account : Account
    pub answers : (p.account e.world).0 ≡ ok account
    pub stored : policy ≡ policy_or fallback (saved_policy account.source e.tables.budget_policies)

  stored_policy-reads :
      (account : Account) (fallback : Policy D) (e : Env D W)
      → Triple
          (λ x. x ≡ e)
          (stored_policy account.source fallback)
          (λ policy x.
            (x ≡ with_world (p.faults e.world).1 e)
            × (policy ≡ policy_or fallback (saved_policy account.source e.tables.budget_policies)))
  unfolding stored_policy budget_policy
  stored_policy-reads account fallback e = record {
    at = λ x h. rw h (elim (Bool-cases (p.faults e.world).0.first) [
      | inl fails ↦ rw fails tt
      | inr answers ↦ rw answers (refl, refl)
    ]);
  }

  refresh_policy-reads :
      (s : Service D) (e : Env D W)
      → Triple
          (λ x. x ≡ e)
          (refresh_policy s)
          (λ t x. (x ≡ with_world (after_limits e) e) × InForce s.policy e t.policy)
  unfolding refresh_policy
  refresh_policy-reads s e = Triple-bind _ _ (call-reads p.account e) (λ account.
      Triple-given (λ answers.
        Triple-bind _ _ (stored_policy-reads account s.policy (with_world _ e)) (λ policy.
          Triple-given (λ stored.
            Triple-pure _
              (λ x h. (h, record { account = account; answers = answers; stored = stored }))))))

module _ {D W : Type 0} ⦃p : Platform D W⦄ ⦃dec : Decimal D⦄ ⦃dig : Digests D⦄ where
  -- The target of the change is what the backend answers in this run, to the session that has seen
  -- it in the last 15 minutes, and the limits it keeps to are those in force.
  pub record AsRead (s : Service D) (session : Session D) (before after : Entity D)
      (kind : ChangeKind) (e : Env D W) (c : Change D) : Type 0 where
    pub target : Entity D
    pub from : c.before ≡ some target
    pub answered : (p.get before.level before.id (p.now (after_limits e)).1).0 ≡ ok target
    pub sight : Seen D
    pub in_session : seen before.id session.provenance ≡ some sight
    pub recent : (p.now (after_limits e)).0 - sight.at ≤ minutes 15
    pub as_seen : same_version target sight.entity ≡ true
    pub as_passed : same_version target before ≡ true
    pub policy : Policy D
    pub in_force : InForce s.policy e policy
    pub within : validate_change policy target after kind ≡ ok tt

  read_before :
      (s : Service D) (session : Session D) (before after target : Entity D) (kind : ChangeKind)
      (e : Env D W) (c : Change D) (policy : Policy D) (o : Option (Seen D))
      → seen before.id session.provenance ≡ o
      → c.before ≡ some target
      → (p.get before.level before.id (p.now (after_limits e)).1).0 ≡ ok target
      → is_stale (p.now (after_limits e)).0 o ≡ false
      → seen_as o target ≡ true
      → same_version target before ≡ true
      → InForce s.policy e policy
      → validate_change policy target after kind ≡ ok tt
      → AsRead s session before after kind e c
  read_before s session before after target kind e c policy none o from answer fresh as_seen same
        limits valid =
      cc as_seen
  read_before s session before after target kind e c policy (some sight) o from answer fresh as_seen
        same limits valid =
      record {
        target = target;
        from = from;
        answered = answer;
        sight = sight;
        in_session = o;
        recent = ground (arith, fresh);
        as_seen = as_seen;
        as_passed = same;
        policy = policy;
        in_force = limits;
        within = valid;
      }

  pub stage-AsRead :
      (s : Service D) (session : Session D) (before after : Entity D) (kind : ChangeKind)
      (reason : String) (e : Env D W)
      → Triple
          (λ x. x ≡ e)
          (stage s session before after kind reason)
          (λ c x. AsRead s session before after kind e c)
  unfolding stage
  stage-AsRead s₀ session before after kind reason e =
      let o = seen before.id session.provenance in
      Triple-bind _ _ (refresh_policy-reads s₀ e) (λ s. Triple-given (λ limits.
        Triple-bind _ _ (ask-reads p.now _) (λ now. Triple-given (λ is_now.
          Triple-reject _ _ _ (λ fresh. Triple-bind _ _ (call-reads _ _) (λ current.
            Triple-given (λ answer. Triple-reject _ _ _ (λ same. Triple-raise _ _ (λ u valid.
              Triple-bind _ _ (anyhow _) (λ a. Triple-bind _ _ (anyhow _) (λ id.
                Triple-bind _ _ (anyhow _) (λ created. Triple-bind _ _ (anyhow _) (λ expires.
                  Triple-bind _ _ (anyhow _) (λ v. Triple-pure _ (λ x h.
                    read_before s₀ session before after current kind e _ s.policy o refl refl answer
                      (rw is_now at fresh) (ground (arith, same)) (ground (arith, same)) limits
                      valid)))))))))))))))
