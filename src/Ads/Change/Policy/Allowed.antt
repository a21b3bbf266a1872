-- ===== src/Ads/Change/Policy/Allowed.antt =====
-- What Policy.Validate lets through.
use ad_agent.Prelude.{
  ◌==◌, eq_iff, ◌≡◌, refl, sym, ap, ◌∙◌, Bool, true, false, not, ◌||◌, Option, none, some, arith,
}
use ad_agent.Prelude.Result.{ok, refuse, or_else, bind_parts, refuse_passed, or_else_passed}
use ad_agent.Ads.Decimal.{Decimal, less_than, greater_than, equal, is_positive}
use ad_agent.Ads.Types.{Entity, ad, same_level, check_entity}
use ad_agent.Ads.Change.{
  ChangeKind, budget_change, status_change, create_change, operation_change, Digests,
}
use ad_agent.Ads.Change.Policy.{
  Policy, within_limits, both_budgets, expected_after, validate_change,
}

module _ {D : Type 0} ⦃dec : Decimal D⦄ where
  -- A budget that moves within the limits of a configured policy.
  pub record InLimits (p : Policy D) (old new : D) : Type 0 where
    pub moves : equal old new ≡ false
    pub configured_max : is_positive p.max_budget ≡ true
    pub configured_delta : is_positive p.max_delta_percent ≡ true
    pub configured_min : is_positive p.min_budget ≡ true
    pub under_max : greater_than new p.max_budget ≡ false
    pub over_min : less_than new p.min_budget ≡ false
    pub from_positive : is_positive old ≡ true
    pub small_step :
        greater_than
          (dec.times (dec.abs (dec.minus new old)) (dec.of_int 100))
          (dec.times old p.max_delta_percent)
        ≡ false

  -- The one field that the kind of change may touch, and how.
  pub data Allowed (p : Policy D) (before after : Entity D) : ChangeKind → Type 0 where
    moves_budget :
        (old new : D)
        → same_level before.level ad ≡ false
        → before.budget ≡ some old
        → after ≡ record before { budget = some new }
        → InLimits p old new
        → Allowed p before after budget_change
    moves_status :
        ¬ (before.status ≡ after.status)
        → after ≡ record before { status = after.status }
        → Allowed p before after status_change

  limits_sound : (p : Policy D) (old new : D) → within_limits p old new ≡ ok tt → InLimits p old new
  unfolding within_limits
  limits_sound p old new h = record {
    moves = ground (arith, h);
    configured_max = ground (arith, h);
    configured_delta = ground (arith, h);
    configured_min = ground (arith, h);
    under_max = ground (arith, h);
    over_min = ground (arith, h);
    from_positive = ground (arith, h);
    small_step = ground (arith, h);
  }

  limits_complete :
      (p : Policy D) (old new : D) → InLimits p old new → within_limits p old new ≡ ok tt
  unfolding within_limits
  limits_complete p old new h =
      rw
        (
          h.moves, h.configured_max, h.configured_delta, h.configured_min, h.under_max, h.over_min,
          h.from_positive, h.small_step,
        )
        refl

  both_sound :
      (p : Policy D) (is_ad : Bool) (o n : Option D)
      → both_budgets p is_ad o n ≡ ok tt
      → (old : D) × (new : D) × (is_ad ≡ false)
        × (o ≡ some old)
        × (n ≡ some new)
        × InLimits p old new
  unfolding both_budgets
  both_sound p false (some old) (some new) h =
      (old, new, refl, refl, refl, limits_sound p old new h)
  both_sound p false (some old) none h = cc h
  both_sound p false none n h = cc h
  both_sound p true o n h = cc h

module _ {D : Type 0} ⦃dec : Decimal D⦄ ⦃dig : Digests D⦄ where
  -- SHA-256 tells `after` from the entities that Policy.Validate compares it with.
  pub record NoCollision (before after : Entity D) : Type 0 where
    pub on_budget :
        dig.entity_version (record before { budget = after.budget }) ≡ dig.entity_version after
        → record before { budget = after.budget } ≡ after
    pub on_status :
        dig.entity_version (record before { status = after.status }) ≡ dig.entity_version after
        → record before { status = after.status } ≡ after

  budget_parts :
      (p : Policy D) (before after x : Entity D)
      → expected_after p before after budget_change ≡ ok x
      → (x ≡ record before { budget = after.budget })
        × (both_budgets p (same_level before.level ad) before.budget after.budget ≡ ok tt)
  unfolding expected_after
  budget_parts p before after x h =
      let (u, b, e) = bind_parts (both_budgets p _ before.budget after.budget) _ h in (cc e, b)

  status_parts :
      (p : Policy D) (before after x : Entity D)
      → expected_after p before after status_change ≡ ok x
      → (x ≡ record before { status = after.status }) × ¬ (before.status ≡ after.status)
  unfolding expected_after
  status_parts p before after x h =
      let (u, b, e) = bind_parts (refuse (before.status == after.status) _) _ h in
      (
        cc e,
        ground (
          arith,
          refuse_passed (before.status == after.status) _ b,
          eq_iff before.status after.status,
        ),
      )

  Allowed-kind :
      (p : Policy D) (before after x : Entity D) (kind : ChangeKind)
      → NoCollision before after
      → expected_after p before after kind ≡ ok x
      → dig.entity_version x ≡ dig.entity_version after
      → Allowed p before after kind
  unfolding expected_after
  Allowed-kind p before after x budget_change n h v =
      let (e, b) = budget_parts p before after x h in
      let (old, new, level, o, w, limits) = both_sound p _ before.budget after.budget b in
      moves_budget old new level o
        (sym (n.on_budget (rw (← e) v)) ∙ ap (λ b. record before { budget = b }) w) limits
  Allowed-kind p before after x status_change n h v =
      let (e, differ) = status_parts p before after x h in
      moves_status differ (sym (n.on_status (rw (← e) v)))
  Allowed-kind p before after x create_change n h v = cc h
  Allowed-kind p before after x operation_change n h v = cc h

  -- A change that Policy.Validate accepts, of an entity and one that SHA-256 tells apart where they
  -- differ, is a budget or a status change. A budget change leads to an entity, not an ad, that
  -- differs in the budget only, within a configured policy's minimum, maximum and step; a status
  -- change to one that differs in the status, and in the status only. The entity is well-formed and
  -- of the same account.
  pub validate_change-Allowed :
      (p : Policy D) (before after : Entity D) (kind : ChangeKind)
      → NoCollision before after
      → validate_change p before after kind ≡ ok tt
      → Allowed p before after kind × (check_entity after before.account_id ≡ ok tt)
  unfolding validate_change expected_after
  validate_change-Allowed p before after kind n h =
      let (u, target, h₁) =
        bind_parts
          (refuse
            (not (before.id == after.id)
              || not (before.account_id == after.account_id)
              || not (same_level before.level after.level))
            "target_mismatch")
          _ h in
      let (v, entity, h₂) = bind_parts (or_else (check_entity after before.account_id) _) _ h₁ in
      let (x, expected, same) = bind_parts (expected_after p before after kind) _ h₂ in
      (
        Allowed-kind p before after x kind n expected (
            ground (
              arith,
              refuse_passed _ _ same,
              eq_iff (dig.entity_version x) (dig.entity_version after),
            )),
        or_else_passed _ _ entity,
      )
