-- ===== src/Service/Stored.antt =====
-- A change as the store holds it, after each operation that writes one.
use ad_agent.Prelude.{
  ℕ, String, eq_refl, ◌≡◌, refl, sym, ap, ◌∙◌, Bool, true, false, some, Option-cases, inl, inr,
}
use ad_agent.Prelude.Result.{Result, ok, err}
use ad_agent.Ads.Change.{ChangeState, Change}
use ad_agent.Store.Tables.{ChangeRow, Tables, Faults, find}
use ad_agent.Store.Changes
use ad_agent.Store.Changes.Rows.{find-append, find_id}
use ad_agent.Store.Changes.Cas.{transition-Swapped, find-Swapped}
use ad_agent.Store.Changes.Audit.{insert_change-Inserted}
use ad_agent.Service.Exec.{Exec}
use ad_agent.Service.Exec.Ensures.{Ensures}
use ad_agent.Service.Exec.Triple.{Triple, Post}
use ad_agent.Service.Platform.{Platform, Env, committed, insert_change, transition, fetch, release}
use ad_agent.Service.Safety.{IsSound, IsSound-same, Preserves}

module _ {D W : Type 0} where
  -- The row of the change's id holds this version of it, and its state.
  pub record Stored (c : Change D) (e : Env D W) : Type 0 where
    pub row : ChangeRow D
    pub found : find c.id e.tables.changes ≡ some row
    pub payload : row.payload ≡ c
    pub state : row.state ≡ c.state

  pub Stored-same :
      {c : Change D} {e e' : Env D W}
      → e'.tables.changes ≡ e.tables.changes
      → Stored c e
      → Stored c e'
  Stored-same p h = record {
    row = h.row;
    found = rw p h.found;
    payload = h.payload;
    state = h.state;
  }

  -- A method that keeps the invariant, as a triple.
  pub Triple-Preserves :
      {A : Type 0} {m : Exec (Env D W) A} → Ensures Preserves m → Triple IsSound m (λ a. IsSound)
  Triple-Preserves {m = m} h = record { at = λ e s. sound_post (m e).0 (m e).1 ((h.at e).at s) }
    where
      sound_post :
          {A : Type 0} (r : Result A) (e : Env D W) → IsSound e → Post (λ (a : A). IsSound) r e
      sound_post (ok a) e s = s
      sound_post (err x) e s = tt

module _ {D W : Type 0} ⦃p : Platform D W⦄ where
  committed-Stored :
      (f : Faults) (from : ChangeState) (c : Change D) (now : ℕ) (e : Env D W) (w : W)
      (r : Result (Tables D))
      → Changes.transition f from c now e.tables ≡ r
      → IsSound e
      → Post (λ u. Stored c) (committed e w r).0 (committed e w r).1
  committed-Stored f from c now e w (err x) eq h = tt
  committed-Stored f from c now e w (ok t) eq h =
      let s = transition-Swapped f from c now e.tables h.logged.distinct eq in
      record {
        row = record s.old { state = c.state; payload = c };
        found = rw (find-Swapped c.id s, eq_refl c.id);
        payload = refl;
        state = refl;
      }

  pub transition-Stored :
      (from : ChangeState) (c : Change D)
      → Triple (IsSound {W = W}) (transition from c) (λ u. Stored c)
  unfolding transition
  transition-Stored from c = record { at = λ e h. committed-Stored _ from c _ e _ _ refl h }

  inserted-Stored :
      (f : Faults) (c : Change D) (now : ℕ) (e : Env D W) (w : W) (r : Result (Tables D))
      → Changes.insert_change f c now e.tables ≡ r
      → Post (λ u. Stored c) (committed e w r).0 (committed e w r).1
  inserted-Stored f c now e w (err x) eq = tt
  inserted-Stored f c now e w (ok t) eq =
      let i = insert_change-Inserted f c now e.tables eq in
      record {
        row = Changes.row_of c;
        found =
            rw (i.rows, find-append c.id e.tables.changes (Changes.row_of c) i.fresh, eq_refl c.id);
        payload = refl;
        state = refl;
      }

  pub insert_change-Stored :
      (c : Change D) → Triple (IsSound {W = W}) (insert_change c) (λ u. Stored c)
  unfolding insert_change
  insert_change-Stored c = record { at = λ e h. inserted-Stored _ c _ e _ _ refl }

  pub release-Stored :
      (id owner : String) (c : Change D) (e : Env D W) → Stored c e → Stored c (release id owner e)
  unfolding release
  release-Stored id owner c e h = Stored-same refl h

  fetched :
      (fault : Bool) (id : String) (e e' : Env D W) (r : Result (Change D))
      → Changes.change fault id e.tables ≡ r
      → e'.tables ≡ e.tables
      → IsSound e
      → IsSound e'
      → Post (λ c e'. IsSound e' × Stored c e' × (c.id ≡ id)) r e'
  unfolding Changes.change
  fetched true id e e' r eq same h h' = rw (← eq) tt
  fetched false id e e' r eq same h h' = elim (Option-cases (find id e.tables.changes)) [
    | inl miss ↦ rw (← eq, miss) tt
    | inr (row, hit) ↦
        let a = rw hit at (h.logged.agrees id) in
        let key : row.payload.id ≡ id = a.2 ∙ find_id id e.tables.changes hit in
        rw (← eq, hit)
          (
            h',
            record {
              row = row;
              found = cc (hit, key, ap (λ (t : Tables D). t.changes) same);
              payload = refl;
              state = sym a.1;
            },
            key,
          )
  ]

  -- Store.Change returns what the row of the id holds.
  pub fetch-Stored :
      (id : String)
      → Triple (IsSound {D = D} {W = W}) (fetch id) (λ c e. IsSound e × Stored c e × (c.id ≡ id))
  unfolding fetch
  fetch-Stored id = record {
    at = λ e h. fetched _ id e _ _ refl refl h (IsSound-same refl refl refl h);
  }
