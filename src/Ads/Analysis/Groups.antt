-- ===== src/Ads/Analysis/Groups.antt =====
-- The groups of Analyze hold each entity once, with the sum of its rows.
use ad_agent.Prelude.{
  String, ◌==◌, eq_iff, ◌≡◌, refl, ◌∙◌, Option, none, some, List, [], ◌∷◌, arith, Bool-cases, inl,
  inr, if◌then◌else◌,
}
use ad_agent.Ads.Decimal.{Decimal}
use ad_agent.Ads.Metrics.{Metrics, zero_metrics, add}
use ad_agent.Ads.Report.{Row}
use ad_agent.Ads.Analysis.{group_of, add_to_group, summed}

module _ {D : Type 0} ⦃dec : Decimal D⦄ where
  abbrev pub from_zero : Option (Metrics D) → Metrics D
  from_zero none = zero_metrics
  from_zero (some m) = m

  -- The sum of the rows of one entity, in their order, on what the group held before; none if
  -- neither has a row.
  unfoldable pub tally : String → Option (Metrics D) → List (Row D) → Option (Metrics D)
  tally k acc [] = acc
  tally k acc (r ∷ rows) =
      tally k (if r.entity_id == k then some (add (from_zero acc) r.metrics) else acc) rows

  -- The sum of all rows.
  unfoldable pub grand_total : Metrics D → List (Row D) → Metrics D
  grand_total acc [] = acc
  grand_total acc (r ∷ rows) = grand_total (add acc r.metrics) rows

  abbrev pub Distinct : List (String × Metrics D) → Type 0
  Distinct [] = Unit
  Distinct ((id, m) ∷ groups) = (group_of id groups ≡ none) × Distinct groups

  group_of-add_to_group :
      (k : String) (r : Row D) (gs : List (String × Metrics D))
      → group_of k (add_to_group r gs) ≡ (
          if r.entity_id == k
          then some (add (from_zero (group_of k gs)) r.metrics)
          else group_of k gs)
  unfolding group_of add_to_group
  group_of-add_to_group k r [] = ground arith
  group_of-add_to_group k r ((id, m) ∷ gs) = ground (
    arith,
    group_of-add_to_group k r gs,
    eq_iff id r.entity_id,
    eq_iff id k,
    eq_iff r.entity_id k,
  )

  add_to_group-Distinct :
      (r : Row D) (gs : List (String × Metrics D)) → Distinct gs → Distinct (add_to_group r gs)
  unfolding group_of add_to_group
  add_to_group-Distinct r [] h = (refl, tt)
  add_to_group-Distinct r ((id, m) ∷ gs) h = elim (Bool-cases (id == r.entity_id)) [
    | inl same ↦ rw same h
    | inr other ↦ rw other (
      group_of-add_to_group id r gs
          ∙ ground (arith, other, h.0, eq_iff id r.entity_id, eq_iff r.entity_id id),
      add_to_group-Distinct r gs h.1,
    )
  ]

  pub summed-Distinct :
      (rows : List (Row D)) (acc : Metrics D) (gs : List (String × Metrics D))
      → Distinct gs
      → Distinct (summed rows acc gs).1
  unfolding summed
  summed-Distinct [] acc gs h = h
  summed-Distinct (r ∷ rows) acc gs h =
      summed-Distinct rows (add acc r.metrics) (add_to_group r gs) (add_to_group-Distinct r gs h)

  pub summed-tally :
      (k : String) (rows : List (Row D)) (acc : Metrics D) (gs : List (String × Metrics D))
      → group_of k (summed rows acc gs).1 ≡ tally k (group_of k gs) rows
  unfolding summed tally
  summed-tally k [] acc gs = refl
  summed-tally k (r ∷ rows) acc gs =
      rw (← group_of-add_to_group k r gs)
        (summed-tally k rows (add acc r.metrics) (add_to_group r gs))

  pub summed-grand_total :
      (rows : List (Row D)) (acc : Metrics D) (gs : List (String × Metrics D))
      → (summed rows acc gs).0 ≡ grand_total acc rows
  unfolding summed grand_total
  summed-grand_total [] acc gs = refl
  summed-grand_total (r ∷ rows) acc gs =
      summed-grand_total rows (add acc r.metrics) (add_to_group r gs)
