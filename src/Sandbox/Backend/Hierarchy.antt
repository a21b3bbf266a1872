-- ===== src/Sandbox/Backend/Hierarchy.antt =====
-- internal/sandbox/backend.go: the shape of an account, campaigns over ad groups over ads.
use ad_agent.Prelude.{
  ◌<◌, String, ◌==◌, eq_iff, ◌≡◌, ◌≢◌, refl, true, false, not, ◌&&◌, ◌||◌, Option, none, some, List,
  arith, Bool-cases, Option-cases, inl, inr,
}
use ad_agent.Prelude.Result.{ok, refuse, bind_parts, refuse_passed}
use ad_agent.Ads.Decimal.{Decimal}
use ad_agent.Ads.Types.{
  Level, advertiser, campaign, ad_group, ad, other_level, same_level, is_valid_level, Entity,
  check_entity,
}
use ad_agent.Store.Session.{seen}
use ad_agent.Sandbox.Rules.{depth, put}
use ad_agent.Sandbox.Rules.Climb.{Levelled}
use ad_agent.Sandbox.Evaluate.Limits.{seen-put}
use ad_agent.Sandbox.Backend.{validate_new, wrong_parent}

level_below :
    (l m : Level)
    → is_valid_level l ≡ true
    → same_level l advertiser ≡ false
    → same_level l campaign ≡ false
    → (same_level l ad_group && not (same_level m campaign)
        || same_level l ad && not (same_level m ad_group))
      ≡ false
    → depth m < depth l
unfolding same_level is_valid_level
level_below advertiser m v a c h = cc a
level_below campaign m v a c h = cc c
level_below ad_group campaign v a c h = omega arith
level_below ad_group advertiser v a c h = cc h
level_below ad_group ad_group v a c h = cc h
level_below ad_group ad v a c h = cc h
level_below ad_group (other_level s) v a c h = cc h
level_below ad ad_group v a c h = omega arith
level_below ad advertiser v a c h = cc h
level_below ad campaign v a c h = cc h
level_below ad ad v a c h = cc h
level_below ad (other_level s) v a c h = cc h
level_below (other_level s) m v a c h = cc v

module _ {D : Type 0} ⦃dec : Decimal D⦄ where
  -- An entity stored under `k` has that id, belongs to the account, is an object that CheckEntity
  -- accepts, and stands under a parent of the level above it.
  pub record Sound (account : String) (es : List (String × Entity D)) (k : String) (e : Entity D)
      : Type 0 where
    pub named : e.id ≡ k
    pub checked : check_entity e account ≡ ok tt
    pub placed : validate_new es e ≡ ok tt

  pub record Hierarchy (account : String) (es : List (String × Entity D)) : Type 0 where
    pub sound : (k : String) (e : Entity D) → seen k es ≡ some e → Sound account es k e

  -- Two entities at one place of the hierarchy.
  pub record SamePlace (a b : Entity D) : Type 0 where
    pub id : b.id ≡ a.id
    pub level : b.level ≡ a.level
    pub parent : b.parent_id ≡ a.parent_id

  -- What is known at an id now, of what was known before.
  abbrev pub Updates : String → Option (Entity D) → Option (Entity D) → Type 0
  Updates account none none = Unit
  Updates account (some a) (some b) =
      SamePlace a b × (check_entity a account ≡ ok tt → check_entity b account ≡ ok tt)
  Updates account _ _ = ⊥

  placed-if-levels :
      (es fs : List (String × Entity D)) (a b : Entity D)
      → SamePlace a b
      → ((p : Entity D)
          → seen a.parent_id es ≡ some p
          → (q : Entity D) × (seen a.parent_id fs ≡ some q) × (q.level ≡ p.level))
      → validate_new es a ≡ ok tt
      → validate_new fs b ≡ ok tt
  unfolding validate_new wrong_parent
  placed-if-levels es fs a b same parents h = elim (Bool-cases (same_level a.level campaign)) [
    | inl top ↦ rw (same.level, same.parent, top) (rw top at h)
    | inr below ↦ elim (Option-cases (seen a.parent_id es)) [
      | inl orphan ↦ let stops = rw (below, orphan) at h in cc stops
      | inr (p, at) ↦
          let (q, now, same_as) = parents p at in
          rw (same.level, same.parent, below, now, same_as) (rw (below, at) at h)
    ]
  ]

  parent_stays :
      (account : String) (es fs : List (String × Entity D))
      → ((k : String) → Updates account (seen k es) (seen k fs))
      → (j : String) (p : Entity D) → seen j es ≡ some p
      → (q : Entity D) × (seen j fs ≡ some q) × (q.level ≡ p.level)
  parent_stays account es fs u j p before = elim (Option-cases (seen j fs)) [
    | inl gone ↦ absurd (rw (before, gone) at (u j))
    | inr (q, now) ↦ let (same, checks) = rw (before, now) at (u j) in (q, now, same.level)
  ]

  -- A map whose entities keep their places keeps its hierarchy.
  pub Updates-Hierarchy :
      (account : String) (es fs : List (String × Entity D))
      → ((k : String) → Updates account (seen k es) (seen k fs))
      → Hierarchy account es
      → Hierarchy account fs
  Updates-Hierarchy account es fs u h = record {
    sound = λ k e now. elim (Option-cases (seen k es)) [
      | inl before ↦ absurd (rw (before, now) at (u k))
      | inr (a, before) ↦
          let (same, checks) = rw (before, now) at (u k) in
          let old = h.sound k a before in
          record {
            named = cc (same.id, old.named);
            checked = checks old.checked;
            placed =
                placed-if-levels es fs a e same (parent_stays account es fs u a.parent_id)
                  old.placed;
          }
    ];
  }

  some-injective : {a b : Entity D} → some a ≡ some b → a ≡ b
  some-injective h = cc h

  kept_by_put :
      (es : List (String × Entity D)) (e : Entity D)
      → seen e.id es ≡ none
      → (j : String) (p : Entity D) → seen j es ≡ some p
      → (q : Entity D) × (seen j (put e.id e es) ≡ some q) × (q.level ≡ p.level)
  kept_by_put es e new j p before = elim (Bool-cases (e.id == j)) [
    | inl here ↦
        let none_there : seen j es ≡ none = rw (← (eq_iff e.id j).0 here) new in
        absurd (cc (none_there, before))
    | inr other ↦ (p, rw (seen-put j e.id e es, other) before, refl)
  ]

  -- A new entity that has passed the checks of Create and Restore.
  pub insert-Hierarchy :
      (account : String) (es : List (String × Entity D)) (e : Entity D)
      → seen e.id es ≡ none
      → check_entity e account ≡ ok tt
      → validate_new es e ≡ ok tt
      → Hierarchy account es
      → Hierarchy account (put e.id e es)
  insert-Hierarchy account es e new checked placed h = record {
    sound = λ k f now. elim (Bool-cases (e.id == k)) [
      | inl here ↦
          let found : some e ≡ some f = rw (seen-put k e.id e es, here) at now in
          rw (← some-injective found) (record {
            named = (eq_iff e.id k).0 here;
            checked = checked;
            placed =
                placed-if-levels es _ e e (record { id = refl; level = refl; parent = refl })
                  (kept_by_put es e new e.parent_id) placed;
          })
      | inr other ↦
          let before : seen k es ≡ some f = rw (seen-put k e.id e es, other) at now in
          let old = h.sound k f before in
          record {
            named = old.named;
            checked = old.checked;
            placed =
                placed-if-levels es _ f f (record { id = refl; level = refl; parent = refl })
                  (kept_by_put es e new f.parent_id) old.placed;
          }
    ];
  }

  checked_parts :
      (account : String) (e : Entity D)
      → check_entity e account ≡ ok tt
      → (e.id ≢ "") × (is_valid_level e.level ≡ true) × (same_level e.level advertiser ≡ false)
  unfolding check_entity
  checked_parts account e h =
      let wrong =
        e.id == ""
        || not (e.account_id == account)
        || not (is_valid_level e.level)
        || same_level e.level advertiser in
      let (_, right, _) = bind_parts (refuse wrong _) _ h in
      let passed = refuse_passed wrong _ right in
      (
        (λ blank. ground (arith, passed, blank, eq_iff e.id "")),
        ground (arith, passed),
        ground (arith, passed),
      )

  parent_deeper :
      (account : String) (es : List (String × Entity D)) (e q : Entity D) {k j : String}
      → Sound account es k e
      → seen e.parent_id es ≡ some q
      → Sound account es j q
      → j ≡ e.parent_id
      → depth q.level < depth e.level
  unfolding validate_new wrong_parent check_entity
  parent_deeper account es e q s parent t named =
      let (_, valid, not_account) = checked_parts account e s.checked in
      let (q_named, _, _) = checked_parts account q t.checked in
      elim (Bool-cases (same_level e.level campaign)) [
        | inl top ↦
            let alone = refuse_passed (not (e.parent_id == "")) _ (rw top at s.placed) in
            absurd (q_named (ground (arith, alone, eq_iff e.parent_id "", t.named, named)))
        | inr below ↦
            let right = refuse_passed _ _ (rw (below, parent) at s.placed) in
            level_below e.level q.level valid not_account below right
      ]

  -- In a hierarchy, every entity lies deeper than its parent.
  pub Hierarchy-Levelled :
      (account : String) (es : List (String × Entity D)) → Hierarchy account es → Levelled es
  Hierarchy-Levelled account es h = record {
    deeper = λ k e q at parent.
        parent_deeper account es e q (h.sound k e at) parent (h.sound e.parent_id q parent) refl;
  }
