-- ===== src/Sandbox/Backend/Replaced.antt =====
-- internal/sandbox: an entity replaced at its place, by a write, a restored entity, or the rules.
use ad_agent.Prelude.{
  String, ◌==◌, eq_iff, ◌≡◌, refl, true, false, not, ◌||◌, Option, none, some, List, arith,
  Bool-cases, inl, inr,
}
use ad_agent.Prelude.Result.{ok, refuse, bind_parts, refuse_passed, or_else_passed, or_else}
use ad_agent.Ads.Decimal.{Decimal}
use ad_agent.Ads.Types.{
  advertiser, same_level, is_valid_level, is_status, Entity, check_entity, negative_budget,
}
use ad_agent.Ads.Change.{budget_change, Digests}
use ad_agent.Ads.Change.Policy.{Policy, validate_change}
use ad_agent.Store.Session.{seen}
use ad_agent.Sandbox.Rules.{put}
use ad_agent.Sandbox.Evaluate.Limits.{seen-put, Moves, stays, pauses, rebudgets}
use ad_agent.Sandbox.Backend.Hierarchy.{Hierarchy, SamePlace, Updates, Updates-Hierarchy}

disable-listed : is_status "DISABLE" ≡ true
unfolding is_status
disable-listed = refl

module _ {D : Type 0} ⦃dec : Decimal D⦄ where
  -- The entity `b` may take the place of `a`.
  abbrev pub Replaces : String → Entity D → Entity D → Type 0
  Replaces account a b =
      SamePlace a b × (check_entity a account ≡ ok tt → check_entity b account ≡ ok tt)

  pub same-Replaces : (account : String) (e : Entity D) → Replaces account e e
  same-Replaces account e = (record { id = refl; level = refl; parent = refl }, λ h. h)

  -- What CheckEntity has looked at.
  pub checked_fields :
      (account : String) (e : Entity D)
      → check_entity e account ≡ ok tt
      → ((e.id == ""
            || not (e.account_id == account)
            || not (is_valid_level e.level)
            || same_level e.level advertiser)
          ≡ false)
        × (is_status e.status ≡ true)
        × (negative_budget e.budget ≡ false)
  unfolding check_entity
  checked_fields account e h =
      let wrong =
        e.id == ""
        || not (e.account_id == account)
        || not (is_valid_level e.level)
        || same_level e.level advertiser in
      let (_, right, h₁) = bind_parts (refuse wrong _) _ h in
      let (_, status, h₂) = bind_parts (refuse (not (is_status e.status)) _) _ h₁ in
      let (_, plain, _) = bind_parts (refuse (negative_budget e.budget) _) _ h₂ in
      let listed = refuse_passed (not (is_status e.status)) _ status in
      (
        refuse_passed wrong _ right,
        ground (arith, listed),
        refuse_passed (negative_budget e.budget) _ plain,
      )

  pub rebudgeted :
      (account : String) (e : Entity D) (budget : Option D)
      → negative_budget budget ≡ false
      → Replaces account e (record e { budget = budget })
  unfolding check_entity
  rebudgeted account e budget plain = (
    record { id = refl; level = refl; parent = refl },
    λ h. let (right, status, _) = checked_fields account e h in rw (right, status, plain) refl,
  )

  pub restated :
      (account : String) (e : Entity D) (status : String)
      → is_status status ≡ true
      → Replaces account e (record e { status = status })
  unfolding check_entity
  restated account e status good = (
    record { id = refl; level = refl; parent = refl },
    λ h. let (right, _, plain) = checked_fields account e h in rw (right, good, plain) refl,
  )

  Replaces-trans :
      (account : String) (a b c : Entity D)
      → Replaces account a b
      → Replaces account b c
      → Replaces account a c
  Replaces-trans account a b c (p, f) (q, g) = (
    record {
      id = cc (q.id, p.id);
      level = cc (q.level, p.level);
      parent = cc (q.parent, p.parent);
    },
    λ h. g (f h),
  )

  Updates-same : (account : String) (o : Option (Entity D)) → Updates account o o
  Updates-same account none = tt
  Updates-same account (some e) = same-Replaces account e

  -- A map in which one entity has been replaced.
  pub replaced-Hierarchy :
      (account : String) (es : List (String × Entity D)) (a b : Entity D)
      → seen b.id es ≡ some a
      → Replaces account a b
      → Hierarchy account es
      → Hierarchy account (put b.id b es)
  replaced-Hierarchy account es a b found r h =
      Updates-Hierarchy account es (put b.id b es)
        (λ k. elim (Bool-cases (b.id == k)) [
          | inl here ↦
              let known : seen k es ≡ some a = rw (← (eq_iff b.id k).0 here) found in
              rw (seen-put k b.id b es, here, known) r
          | inr other ↦ rw (seen-put k b.id b es, other) (Updates-same account (seen k es))
        ])
        h

  -- A run of the rules.
  module _ ⦃dig : Digests D⦄ where
    validated-plain :
        (p : Policy D) (e : Entity D) (v : D)
        → validate_change p e (record e { budget = some v }) budget_change ≡ ok tt
        → negative_budget (some v) ≡ false
    unfolding validate_change
    validated-plain p e v h =
        let after = record e { budget = some v } in
        let (_, _, h₁) =
          bind_parts
            (refuse
              (not (e.id == after.id)
                || not (e.account_id == after.account_id)
                || not (same_level e.level after.level))
              _)
            _ h in
        let (_, target, _) = bind_parts (or_else (check_entity after e.account_id) _) _ h₁ in
        let (_, _, plain) =
          checked_fields e.account_id after
            (or_else_passed (check_entity after e.account_id) _ target) in
        plain

    pub Moves-Updates :
        (account : String) (p : Policy D) (o o' : Option (Entity D))
        → Moves p o o'
        → Updates account o o'
    Moves-Updates account p o o' stays = Updates-same account o
    Moves-Updates account p none o' (pauses m) = absurd (Moves-Updates account p none _ m)
    Moves-Updates account p (some a) o' (pauses {e} m) =
        Replaces-trans account a e _ (Moves-Updates account p (some a) (some e) m)
          (restated account e "DISABLE" disable-listed)
    Moves-Updates account p none o' (rebudgets v m c) = absurd (Moves-Updates account p none _ m)
    Moves-Updates account p (some a) o' (rebudgets {e} v m c) =
        Replaces-trans account a e _ (Moves-Updates account p (some a) (some e) m)
          (rebudgeted account e (some v) (validated-plain p e v c))
