-- ===== src/Store/Changes/Rows.antt =====
-- The rows of the changes table as a map from ids, through an update and an insertion.
use ad_agent.Prelude.{
  ℕ, String, ◌==◌, eq_iff, ◌≡◌, refl, Option, none, some, List, [], ◌∷◌, ◌++◌, arith, if◌then◌else◌,
  Option-cases, inl, inr,
}
use ad_agent.Ads.Change.{ChangeState, Change}
use ad_agent.Store.Tables.{ChangeRow, find}
use ad_agent.Store.Changes.{hits, update_rows, affected}

module _ {D : Type 0} where
  -- No two rows have one id: the primary key.
  abbrev pub Distinct : List (ChangeRow D) → Type 0
  Distinct [] = Unit {0}
  Distinct (r ∷ rows) = (find r.id rows ≡ none) × Distinct rows

  abbrev pub renewed : ChangeState → Change D → Option (ChangeRow D) → Option (ChangeRow D)
  renewed from c none = none
  renewed from c (some r) =
      some (if hits c.id from r then record r { state = c.state; payload = c } else r)

  pub find_id :
      (k : String) (rows : List (ChangeRow D)) {r : ChangeRow D} → find k rows ≡ some r → r.id ≡ k
  unfolding find
  find_id k [] h = ground arith
  find_id k (x ∷ rows) {r} h = ground (arith, eq_iff x.id k, find_id k rows {r = r})

  pub find-update_rows :
      (k : String) (from : ChangeState) (c : Change D) (rows : List (ChangeRow D))
      → find k (update_rows from c rows) ≡ renewed from c (find k rows)
  unfolding find update_rows
  find-update_rows k from c [] = refl
  find-update_rows k from c (r ∷ rows) = ground (arith, find-update_rows k from c rows)

  pub update_rows-Distinct :
      (from : ChangeState) (c : Change D) (rows : List (ChangeRow D))
      → Distinct rows
      → Distinct (update_rows from c rows)
  unfolding update_rows
  update_rows-Distinct from c [] h = tt
  update_rows-Distinct from c (r ∷ rows) h =
      ground (arith, update_rows-Distinct from c rows h.1, find-update_rows r.id from c rows)

  -- An update can only concern the row of the change's own id.
  pub renewed-find :
      (k : String) (from : ChangeState) (c : Change D) (rows : List (ChangeRow D))
      → renewed from c (find k rows)
        ≡ (if c.id == k then renewed from c (find c.id rows) else find k rows)
  renewed-find k from c rows = elim (Option-cases (find k rows)) [
    | inl e ↦ ground (arith, eq_iff c.id k)
    | inr (r, e) ↦ ground (arith, find_id k rows {r = r} e, eq_iff r.id c.id, eq_iff c.id k)
  ]

  affected-none :
      (from : ChangeState) (c : Change D) (rows : List (ChangeRow D))
      → find c.id rows ≡ none
      → affected from c rows ≡ 0
  unfolding find affected
  affected-none from c [] h = refl
  affected-none from c (r ∷ rows) h = ground (arith, affected-none from c rows)

  abbrev pub count_hit : ChangeState → Change D → Option (ChangeRow D) → ℕ
  count_hit from c none = 0
  count_hit from c (some r) = if hits c.id from r then 1 else 0

  -- With distinct ids at most the row of the change's own id is affected.
  pub affected-Distinct :
      (from : ChangeState) (c : Change D) (rows : List (ChangeRow D))
      → Distinct rows
      → affected from c rows ≡ count_hit from c (find c.id rows)
  unfolding find affected
  affected-Distinct from c [] h = refl
  affected-Distinct from c (r ∷ rows) h =
      ground (arith, affected-Distinct from c rows h.1, affected-none from c rows, eq_iff r.id c.id)

  pub find-append :
      (k : String) (rows : List (ChangeRow D)) (r : ChangeRow D)
      → find r.id rows ≡ none
      → find k (rows ++ r ∷ []) ≡ (if r.id == k then some r else find k rows)
  unfolding find
  find-append k [] r h = refl
  find-append k (x ∷ rows) r h =
      ground (arith, find-append k rows r, eq_iff x.id k, eq_iff r.id k, eq_iff x.id r.id)

  pub append-Distinct :
      (rows : List (ChangeRow D)) (r : ChangeRow D)
      → find r.id rows ≡ none
      → Distinct rows
      → Distinct (rows ++ r ∷ [])
  unfolding find
  append-Distinct [] r h d = (refl, tt)
  append-Distinct (x ∷ rows) r h d =
      ground
        (arith, append-Distinct rows r, find-append x.id rows r, eq_iff r.id x.id, eq_iff x.id r.id)
