-- ===== src/Store/Changes/Cas.antt =====
-- Transition is a compare-and-swap of one row together with one audit row.
use ad_agent.Prelude.{
  ℕ, String, ◌==◌, eq_iff, ◌≡◌, refl, true, Option, none, some, [], ◌∷◌, ◌++◌, arith, if◌then◌else◌,
}
use ad_agent.Prelude.Result.{ok}
use ad_agent.Ads.Change.{ChangeState, same_state_iff, can_transition, Change}
use ad_agent.Store.Tables.{ChangeRow, Tables, Faults, find}
use ad_agent.Store.Changes.{update_rows, transition, audit_of}
use ad_agent.Store.Changes.Rows.{
  Distinct, count_hit, find_id, find-update_rows, affected-Distinct, renewed-find,
}

module _ {D : Type 0} where
  -- What a successful transition has done.
  pub record Swapped (from : ChangeState) (c : Change D) (now : ℕ) (t t' : Tables D) : Type 0 where
    pub old : ChangeRow D
    pub found : find c.id t.changes ≡ some old
    pub was : old.state ≡ from
    pub allowed : can_transition from c.state ≡ true
    pub rows : t'.changes ≡ update_rows from c t.changes
    pub audited : t'.audit ≡ t.audit ++ audit_of c now ∷ []
    pub leases : t'.leases ≡ t.leases
    pub policies : t'.budget_policies ≡ t.budget_policies

  hit_old :
      (from : ChangeState) (c : Change D) (o : Option (ChangeRow D))
      → count_hit from c o ≡ 1
      → (r : ChangeRow D) × (o ≡ some r) × (r.state ≡ from)
  hit_old from c none h = ground arith
  hit_old from c (some r) h = (r, refl, ground (arith, same_state_iff r.state from))

  pub transition-Swapped :
      (f : Faults) (from : ChangeState) (c : Change D) (now : ℕ) (t : Tables D) {t' : Tables D}
      → Distinct t.changes
      → transition f from c now t ≡ ok t'
      → Swapped from c now t t'
  unfolding transition
  transition-Swapped f from c now t {t'} d h =
      let (r, e, w) =
        hit_old from c (find c.id t.changes)
          (ground (arith, affected-Distinct from c t.changes d)) in
      record {
        old = r;
        found = e;
        was = w;
        allowed = ground arith;
        rows = ground arith;
        audited = ground arith;
        leases = ground arith;
        policies = ground arith;
      }

  -- The row of each id after a successful transition.
  pub find-Swapped :
      (k : String) {from : ChangeState} {c : Change D} {now : ℕ} {t t' : Tables D}
      → (s : Swapped from c now t t')
      → find k t'.changes ≡ (
          if c.id == k
          then some (record s.old { state = c.state; payload = c })
          else find k t.changes)
  find-Swapped k {from} {c} {now} {t} {t'} s =
      rw (s.rows, find-update_rows k from c t.changes, renewed-find k from c t.changes)
        (ground (
          arith,
          s.found,
          s.was,
          find_id c.id t.changes s.found,
          eq_iff s.old.id c.id,
          same_state_iff s.old.state from,
        ))
