-- ===== src/Sandbox/Rules/Climb.antt =====
-- The depth of an entity is fuel enough to climb from it.
use ad_agent.Prelude.{
  ℕ, zero, suc, ◌<◌, String, ◌≡◌, refl, true, false, Option, none, some, List, arith, Option-cases,
  Bool-cases, inl, inr,
}
use ad_agent.Ads.Types.{Level, same_level, Entity}
use ad_agent.Store.Session.{seen}
use ad_agent.Sandbox.Rules.{depth, climb}

module _ {D : Type 0} where
  -- Every entity lies deeper than its parent.
  pub record Levelled (es : List (String × Entity D)) : Type 0 where
    pub deeper :
        (k : String) (e q : Entity D)
        → seen k es ≡ some e
        → seen e.parent_id es ≡ some q
        → depth q.level < depth e.level

  -- The way of the loop from an entity up to a level, with the entity that it ends at.
  pub data Ascends (es : List (String × Entity D)) (level : Level)
      : Entity D → Option (Entity D) → Type 0 where
    here : {e : Entity D} → same_level e.level level ≡ true → Ascends es level e (some e)
    top :
        {e : Entity D}
        → same_level e.level level ≡ false
        → seen e.parent_id es ≡ none
        → Ascends es level e none
    up :
        {e q : Entity D} {o : Option (Entity D)}
        → same_level e.level level ≡ false
        → seen e.parent_id es ≡ some q
        → Ascends es level q o
        → Ascends es level e o

  -- The loop from an entity comes to its end, after at most as many rounds as the entity is deep.
  pub record Climbed (es : List (String × Entity D)) (e : Entity D) (level : Level) : Type 0 where
    pub found : Option (Entity D)
    pub way : Ascends es level e found
    pub over : (n : ℕ) → depth e.level < n → climb n es e level ≡ some found

  over-here :
      (es : List (String × Entity D)) (e : Entity D) (level : Level)
      → same_level e.level level ≡ true
      → (n : ℕ) → depth e.level < n
      → climb n es e level ≡ some (some e)
  unfolding climb
  over-here es e level same zero b = absurd (omega (arith, b))
  over-here es e level same (suc n) b = rw same refl

  over-top :
      (es : List (String × Entity D)) (e : Entity D) (level : Level)
      → same_level e.level level ≡ false
      → seen e.parent_id es ≡ none
      → (n : ℕ) → depth e.level < n
      → climb n es e level ≡ some none
  unfolding climb
  over-top es e level other last zero b = absurd (omega (arith, b))
  over-top es e level other last (suc n) b = rw (other, last) refl

  over-up :
      (es : List (String × Entity D)) (e q : Entity D) (level : Level)
      → same_level e.level level ≡ false
      → seen e.parent_id es ≡ some q
      → depth q.level < depth e.level
      → (c : Climbed es q level) → (n : ℕ) → depth e.level < n
      → climb n es e level ≡ some c.found
  unfolding climb
  over-up es e q level other parent deeper c zero b = absurd (omega (arith, b))
  over-up es e q level other parent deeper c (suc n) b =
      rw (other, parent) (c.over n (omega (arith, deeper, b)))

  climb_within :
      (es : List (String × Entity D))
      → Levelled es
      → (n : ℕ) (k : String) (e : Entity D) (level : Level) → seen k es ≡ some e
      → depth e.level < n
      → Climbed es e level
  climb_within es h zero k e level at a = absurd (omega (arith, a))
  climb_within es h (suc n) k e level at a = elim (Bool-cases (same_level e.level level)) [
    | inl same ↦ record { found = some e; way = here same; over = over-here es e level same }
    | inr other ↦ elim (Option-cases (seen e.parent_id es)) [
      | inl last ↦ record {
        found = none;
        way = top other last;
        over = over-top es e level other last;
      }
      | inr (q, parent) ↦
          let deeper = h.deeper k e q at parent in
          let c = climb_within es h n e.parent_id q level parent (omega (arith, deeper, a)) in
          record {
            found = c.found;
            way = up other parent c.way;
            over = over-up es e q level other parent deeper c;
          }
    ]
  ]

  -- Where every entity lies deeper than its parent, the loop of `matches` from an entity of the map
  -- comes to its end, with more fuel than the depth of the entity: at the entity of the level on the
  -- way up the parents, or at a parent that is not there.
  pub climb-enough :
      (es : List (String × Entity D))
      → Levelled es
      → (k : String) (e : Entity D) (level : Level) → seen k es ≡ some e
      → Climbed es e level
  climb-enough es h k e level at =
      climb_within es h (suc (depth e.level)) k e level at (omega arith)
