-- ===== src/Store/Changes/Exclusive.antt =====
-- Of two transitions from one state, one wins; a transition whose state is still there does not fail.
use ad_agent.Prelude.{
  ℕ, String, eq_iff, eq_refl, ◌≡◌, refl, sym, ◌∙◌, subst, [], ◌∷◌, ◌++◌, true, false, some, arith,
}
use ad_agent.Prelude.Result.{ok}
use ad_agent.Ads.Change.{
  ChangeState, staged, applying, indeterminate, same_state, same_state_iff, can_transition, Change,
}
use ad_agent.Store.Tables.{ChangeRow, Tables, Faults, find}
use ad_agent.Store.Changes.{update_rows, transition, affected, audit_of}
use ad_agent.Store.Changes.Rows.{Distinct, find_id, update_rows-Distinct, affected-Distinct}
use ad_agent.Store.Changes.Cas.{Swapped, transition-Swapped, find-Swapped}

can_transition-irreflexive : (s : ChangeState) → can_transition s s ≡ false
unfolding can_transition same_state
can_transition-irreflexive staged = refl
can_transition-irreflexive applying = refl
can_transition-irreflexive indeterminate = refl
can_transition-irreflexive _ = refl

abbrev pub no_faults : Faults
no_faults = record { begin = false; first = false; second = false; commit = false }

module _ {D : Type 0} where
  both_from :
      (from : ChangeState) (c d : Change D) (now later : ℕ) {t t' t'' : Tables D}
      → d.id ≡ c.id
      → Swapped from c now t t'
      → Swapped from d later t' t''
      → ⊥
  both_from from c d now later {t} {t'} same s u =
      let state : c.state ≡ from =
        ground (arith, find-Swapped d.id s, u.found, u.was, same, eq_iff c.id d.id) in
      let looped : can_transition from from ≡ true =
        subst (λ x. can_transition from x ≡ true) state s.allowed in
      cc (looped, can_transition-irreflexive from)

  -- After a transition of a change from a state, no other transition of that change from that state
  -- succeeds on the table it has left: of two approvals, or of an approval and a discard, one wins.
  pub one_wins :
      (f g : Faults) (from : ChangeState) (c d : Change D) (now later : ℕ) (t : Tables D)
      {t' t'' : Tables D}
      → Distinct t.changes
      → d.id ≡ c.id
      → transition f from c now t ≡ ok t'
      → ¬ (transition g from d later t' ≡ ok t'')
  one_wins f g from c d now later t {t'} distinct same h k =
      let s = transition-Swapped f from c now t distinct h in
      let distinct' : Distinct t'.changes =
        rw s.rows (update_rows-Distinct from c t.changes distinct) in
      both_from from c d now later same s (transition-Swapped g from d later t' distinct' k)

  -- The tables after a transition that has been made.
  pub record Swap (c : Change D) (now : ℕ) (r : ChangeRow D) (t t' : Tables D) : Type 0 where
    pub row : find c.id t'.changes ≡ some (record r { state = c.state; payload = c })
    pub others : (k : String) → ¬ (k ≡ c.id) → find k t'.changes ≡ find k t.changes
    pub audited : t'.audit ≡ t.audit ++ record { change_id = c.id; at = now; payload = c } ∷ []
    pub leases : t'.leases ≡ t.leases
    pub policies : t'.budget_policies ≡ t.budget_policies

  Swapped-Swap :
      (from : ChangeState) (c : Change D) (now : ℕ) (r : ChangeRow D) {t t' : Tables D}
      → find c.id t.changes ≡ some r
      → Swapped from c now t t'
      → Swap c now r t t'
  Swapped-Swap from c now r found s =
      let both : some s.old ≡ some r = sym s.found ∙ found in
      let old : s.old ≡ r = cc both in
      record {
        row = rw (find-Swapped c.id s, eq_refl c.id, old) refl;
        others = λ k n. ground (arith, find-Swapped k s, eq_iff c.id k, n);
        audited = s.audited;
        leases = s.leases;
        policies = s.policies;
      }

  -- Where no two rows have one id, a transition that the machine allows succeeds when the row has the
  -- state it starts from and the database answers: the row then holds the new change and its state, every other row, the leases
  -- and the budget policies are as they were, and the audit has one more entry, of this change.
  pub transition-succeeds :
      (from : ChangeState) (c : Change D) (now : ℕ) (t : Tables D) {r : ChangeRow D}
      → Distinct t.changes
      → can_transition from c.state ≡ true
      → find c.id t.changes ≡ some r
      → r.state ≡ from
      → (t' : Tables D) × (transition no_faults from c now t ≡ ok t') × Swap c now r t t'
  unfolding transition
  transition-succeeds from c now t {r} d allowed found was =
      let one : affected from c t.changes ≡ 1 = ground (
        arith,
        affected-Distinct from c t.changes d,
        found,
        was,
        find_id c.id t.changes found,
        eq_iff r.id c.id,
        same_state_iff r.state from,
      ) in
      let t' : Tables D = record t {
        changes = update_rows from c t.changes;
        audit = t.audit ++ audit_of c now ∷ [];
      } in
      let done : transition no_faults from c now t ≡ ok t' = rw (allowed, one) refl in
      (t', done, Swapped-Swap from c now r found (transition-Swapped no_faults from c now t d done))
