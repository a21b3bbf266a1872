-- ===== src/Store/Changes/Audit.antt =====
-- The audit table is a complete log of the changes table: for each change it holds the walk through
-- the state machine that led to the row, from `staged` on.
use ad_agent.Prelude.{
  ℕ, String, ◌==◌, eq_iff, ◌≡◌, refl, sym, true, Option, none, some, List, [], ◌∷◌, ◌++◌, arith,
  if◌then◌else◌, Bool-cases, inl, inr,
}
use ad_agent.Prelude.Result.{ok}
use ad_agent.Ads.Change.{ChangeState, staged, can_transition, Change}
use ad_agent.Store.Tables.{ChangeRow, AuditRow, Tables, Faults, find}
use ad_agent.Store.Changes.{insert_change, transition, audit_of, row_of}
use ad_agent.Store.Changes.Rows.{
  Distinct, find_id, update_rows-Distinct, find-append, append-Distinct,
}
use ad_agent.Store.Changes.Cas.{Swapped, transition-Swapped, find-Swapped}

module _ {D : Type 0} where
  -- What the audit table holds of one change, oldest first.
  unfoldable pub entries : String → List (AuditRow D) → List (Change D)
  entries k [] = []
  entries k (a ∷ rows) =
      let rest = entries k rows in if a.change_id == k then a.payload ∷ rest else rest

  pub entries-append :
      (k : String) (rows : List (AuditRow D)) (c : Change D) (now : ℕ)
      → entries k (rows ++ audit_of c now ∷ [])
        ≡ (if c.id == k then entries k rows ++ c ∷ [] else entries k rows)
  unfolding entries
  entries-append k [] c now = ground arith
  entries-append k (a ∷ rows) c now = ground (arith, entries-append k rows c now)

  -- `Walk es c`: the versions `es` of a change, ending in `c`, follow the state machine.
  pub data Walk : List (Change D) → Change D → Type 0 where
    inserted : {es : List (Change D)} {c : Change D} → c.state ≡ staged → es ≡ c ∷ [] → Walk es c
    moved :
        {es es' : List (Change D)} {b c : Change D}
        → Walk es b
        → can_transition b.state c.state ≡ true
        → es' ≡ es ++ c ∷ []
        → Walk es' c

  abbrev pub Agrees : Option (ChangeRow D) → List (Change D) → Type 0
  Agrees none es = es ≡ []
  Agrees (some r) es = Walk es r.payload × (r.payload.state ≡ r.state) × (r.payload.id ≡ r.id)

  pub record IsLogged (t : Tables D) : Type 0 where
    pub distinct : Distinct t.changes
    pub agrees : (k : String) → Agrees (find k t.changes) (entries k t.audit)

  -- The part of `IsLogged` that concerns the two tables alone.
  pub IsLogged-same :
      {t t' : Tables D} → t'.changes ≡ t.changes → t'.audit ≡ t.audit → IsLogged t → IsLogged t'
  IsLogged-same {t} {t'} p q w = record {
    distinct = rw p w.distinct;
    agrees = λ k. rw (p, q) (w.agrees k);
  }

  Swapped-Agrees :
      (from : ChangeState) (c : Change D) (now : ℕ) (t t' : Tables D)
      → Swapped from c now t t'
      → IsLogged t
      → (k : String) → Agrees (find k t'.changes) (entries k t'.audit)
  Swapped-Agrees from c now t t' s w k = elim (Bool-cases (c.id == k)) [
    | inl same ↦
        let e : c.id ≡ k = (eq_iff c.id k).0 same in
        let old = rw s.found at (w.agrees c.id) in
        rw (find-Swapped k s, s.audited, entries-append k t.audit c now, same)
          (
            moved {b = s.old.payload} (rw (← e) old.0) (ground (arith, old, s.was, s.allowed)) refl,
            refl,
            sym (find_id c.id t.changes s.found),
          )
    | inr other ↦
        rw (find-Swapped k s, s.audited, entries-append k t.audit c now, other) (w.agrees k)
  ]

  pub transition-IsLogged :
      (f : Faults) (from : ChangeState) (c : Change D) (now : ℕ) (t : Tables D) {t' : Tables D}
      → IsLogged t
      → transition f from c now t ≡ ok t'
      → IsLogged t'
  transition-IsLogged f from c now t {t'} w e =
      let s = transition-Swapped f from c now t w.distinct e in
      record {
        distinct = rw s.rows (update_rows-Distinct from c t.changes w.distinct);
        agrees = Swapped-Agrees from c now t t' s w;
      }

  -- What a successful insertion has done.
  pub record Inserted (c : Change D) (now : ℕ) (t t' : Tables D) : Type 0 where
    pub fresh : find c.id t.changes ≡ none
    pub rows : t'.changes ≡ t.changes ++ row_of c ∷ []
    pub audited : t'.audit ≡ t.audit ++ audit_of c now ∷ []
    pub leases : t'.leases ≡ t.leases
    pub policies : t'.budget_policies ≡ t.budget_policies

  pub insert_change-Inserted :
      (f : Faults) (c : Change D) (now : ℕ) (t : Tables D) {t' : Tables D}
      → insert_change f c now t ≡ ok t'
      → Inserted c now t t'
  unfolding insert_change
  insert_change-Inserted f c now t {t'} e = ground arith

  Inserted-Agrees :
      (c : Change D) (now : ℕ) (t t' : Tables D)
      → Inserted c now t t'
      → c.state ≡ staged
      → IsLogged t
      → (k : String) → Agrees (find k t'.changes) (entries k t'.audit)
  Inserted-Agrees c now t t' i st w k = elim (Bool-cases (c.id == k)) [
    | inl same ↦
        let e : c.id ≡ k = (eq_iff c.id k).0 same in
        let none_yet = rw i.fresh at (w.agrees c.id) in
        rw
          (
            i.rows,
            find-append k t.changes (row_of c) i.fresh,
            i.audited,
            entries-append k t.audit c now,
            same,
          )
          (inserted st (rw (← e, none_yet)), refl, refl)
    | inr other ↦
        rw
          (
            i.rows,
            find-append k t.changes (row_of c) i.fresh,
            i.audited,
            entries-append k t.audit c now,
            other,
          )
          (w.agrees k)
  ]

  pub insert_change-IsLogged :
      (f : Faults) (c : Change D) (now : ℕ) (t : Tables D) {t' : Tables D}
      → c.state ≡ staged
      → IsLogged t
      → insert_change f c now t ≡ ok t'
      → IsLogged t'
  insert_change-IsLogged f c now t {t'} st w e =
      let i = insert_change-Inserted f c now t e in
      record {
        distinct = rw i.rows (append-Distinct t.changes (row_of c) i.fresh w.distinct);
        agrees = Inserted-Agrees c now t t' i st w;
      }
