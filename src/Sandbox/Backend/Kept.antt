-- ===== src/Sandbox/Backend/Kept.antt =====
-- internal/sandbox: the hierarchy through each call of the backend.
use ad_agent.Prelude.{
  ℕ, String, ◌==◌, ◌≡◌, refl, sym, subst, ap, Bool, true, false, not, ◌||◌, Option, none, some,
  arith, Bool-cases, Option-cases, inl, inr,
}
use ad_agent.Prelude.Result.{Result, ok, err, refuse, bind_parts, refuse_passed, ok-injective}
use ad_agent.Ads.Decimal.{Decimal, is_negative}
use ad_agent.Ads.Types.{
  ad, same_level, is_status, Entity, WriteRequest, CreateRequest, check_entity, validate_create,
}
use ad_agent.Ads.Change.{Digests, same_version}
use ad_agent.Store.Session.{seen}
use ad_agent.Sandbox.Rules.{Calendar}
use ad_agent.Sandbox.Evaluate.{evaluate_rules}
use ad_agent.Sandbox.Evaluate.Limits.{evaluate_rules-Moves}
use ad_agent.Sandbox.Backend.{
  Backend, created_entity, create, restore, restore_known, restore_new, write, written_entity,
  written_budget, written_status, stored, validate_new,
}
use ad_agent.Sandbox.Backend.Hierarchy.{Hierarchy, Updates-Hierarchy, insert-Hierarchy}
use ad_agent.Sandbox.Backend.Replaced.{
  Replaces, rebudgeted, restated, replaced-Hierarchy, Moves-Updates,
}

module _ {D : Type 0} ⦃dec : Decimal D⦄ ⦃dig : Digests D⦄ where
  -- The entities of the account form a hierarchy.
  abbrev pub IsSound : Backend D → Type 0
  IsSound b = Hierarchy b.account.id b.rules.entities

  budget-Replaces :
      (account : String) (e : Entity D) (v : Option D) {e' : Entity D}
      → written_budget v e ≡ ok e'
      → Replaces account e e'
  unfolding written_budget
  budget-Replaces account e none h = cc h
  budget-Replaces account e (some v) h =
      let (_, right, rest) = bind_parts (refuse (same_level e.level ad || is_negative v) _) _ h in
      let passed = refuse_passed (same_level e.level ad || is_negative v) _ right in
      subst (Replaces account e) (ok-injective rest)
        (rebudgeted account e (some v) (ground (arith, passed)))

  status-Replaces :
      (account : String) (e : Entity D) (status : String) {e' : Entity D}
      → written_status status e ≡ ok e'
      → Replaces account e e'
  unfolding written_status
  status-Replaces account e status h =
      let (_, right, rest) = bind_parts (refuse (not (is_status status)) _) _ h in
      let passed = refuse_passed (not (is_status status)) _ right in
      subst (Replaces account e) (ok-injective rest)
        (restated account e status (ground (arith, passed)))

  written-Replaces :
      (account : String) (w : WriteRequest D) (e : Entity D) {e' : Entity D}
      → written_entity w e ≡ ok e'
      → Replaces account e e'
  unfolding written_entity written_budget written_status
  written-Replaces account w e h = elim (Bool-cases (w.kind == "budget")) [
    | inl money ↦ budget-Replaces account e w.budget (rw money at h)
    | inr other ↦ elim (Bool-cases (w.kind == "status")) [
      | inl state ↦ status-Replaces account e w.status (rw (other, state) at h)
      | inr unknown ↦ let stops = rw (other, unknown) at h in cc stops
    ]
  ]

  stored-IsSound :
      (w : WriteRequest D) (e : Entity D) (b : Backend D)
      → seen e.id b.rules.entities ≡ some e
      → IsSound b
      → (r : Result (Entity D)) → written_entity w e ≡ r
      → IsSound ((stored r b).1)
  unfolding stored
  stored-IsSound w e b found h (err x) eq = h
  stored-IsSound w e b found h (ok e') eq =
      let r = written-Replaces b.account.id w e eq in
      replaced-Hierarchy b.account.id b.rules.entities e e' (rw r.0.id found) r h

  pub write-IsSound :
      (cancelled : Bool) (w : WriteRequest D) (b : Backend D)
      → IsSound b
      → IsSound ((write cancelled w b).1)
  unfolding write stored
  write-IsSound true w b h = h
  write-IsSound false w b h = elim (Option-cases (seen w.target.id b.rules.entities)) [
    | inl gone ↦ rw gone h
    | inr (e, found) ↦ elim (Bool-cases (same_version e w.target)) [
      | inr moved ↦ rw (found, moved) h
      | inl same ↦
          rw (found, same)
            (stored-IsSound w e b (cc ((h.sound w.target.id e found).named, found)) h
              (written_entity w e) refl)
    ]
  ]

  pub create-IsSound :
      (cancelled : Bool) (drawn : Option String) (r : CreateRequest D) (b : Backend D)
      {e : Entity D} {b' : Backend D}
      → create cancelled drawn r b ≡ ok (e, b')
      → ((digits : String)
          → drawn ≡ some digits
          → seen (created_entity b.account.id digits r).id b.rules.entities ≡ none)
      → IsSound b
      → IsSound b'
  unfolding create
  create-IsSound cancelled drawn r b h fresh sound =
      let (_, _, h₁) = bind_parts (refuse cancelled _) _ h in
      let (_, _, h₂) = bind_parts (validate_create r) _ h₁ in
      elim (Option-cases drawn) [
        | inl none_drawn ↦ let stops = rw none_drawn at h₂ in cc stops
        | inr (digits, was_drawn) ↦
            let new = created_entity b.account.id digits r in
            let (_, checked, h₃) =
              bind_parts (check_entity new b.account.id) _ (rw was_drawn at h₂) in
            let (_, placed, h₄) = bind_parts (validate_new b.rules.entities new) _ h₃ in
            let is_b = ap (λ p. p.1) (ok-injective h₄) in
            subst IsSound is_b (
              insert-Hierarchy b.account.id b.rules.entities new (fresh digits was_drawn) checked
                placed sound)
      ]

  pub restore-IsSound :
      (e : Entity D) (b : Backend D) {b' : Backend D}
      → restore e b ≡ ok b'
      → ((old : Entity D)
          → seen e.id b.rules.entities ≡ some old
          → same_version (record old { budget = e.budget; status = e.status }) e ≡ true
          → record old { budget = e.budget; status = e.status } ≡ e)
      → IsSound b
      → IsSound b'
  unfolding restore restore_known restore_new
  restore-IsSound e b h apart sound =
      let (_, checked, h₁) = bind_parts (check_entity e b.account.id) _ h in
      elim (Option-cases (seen e.id b.rules.entities)) [
        | inl new ↦
            let (_, placed, h₂) = bind_parts (validate_new b.rules.entities e) _ (rw new at h₁) in
            subst IsSound (ok-injective h₂)
              (insert-Hierarchy b.account.id b.rules.entities e new checked placed sound)
        | inr (old, known) ↦
            let same = same_version (record old { budget = e.budget; status = e.status }) e in
            let (_, right, h₂) = bind_parts (refuse (not same) _) _ (rw known at h₁) in
            let passed = refuse_passed (not same) _ right in
            let is_e = apart old known (ground (arith, passed)) in
            subst IsSound (ok-injective h₂) (
              replaced-Hierarchy b.account.id b.rules.entities old e known
                (
                  record {
                    id = sym (ap (λ x. x.id) is_e);
                    level = sym (ap (λ x. x.level) is_e);
                    parent = sym (ap (λ x. x.parent_id) is_e);
                  },
                  λ was. checked,
                )
                sound)
      ]

  pub evaluate-IsSound :
      (cal : Calendar D) (at : ℕ) (b : Backend D)
      → IsSound b
      → IsSound (record b { rules = evaluate_rules cal at b.rules })
  evaluate-IsSound cal at b h =
      Updates-Hierarchy b.account.id b.rules.entities _
        (λ k. Moves-Updates b.account.id _ _ _ (evaluate_rules-Moves cal at b.rules k)) h
