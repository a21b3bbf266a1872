-- ===== src/Service/Safety.antt =====
-- The invariant of the change service: the audit table logs the changes table, and no change has
-- been sent more often than it was claimed.
use ad_agent.Prelude.{ℕ, ◌+◌, ◌≤◌, String, eq_iff, ◌≡◌, refl, List, arith}
use ad_agent.Prelude.Result.{Result, ok, err}
use ad_agent.Ads.Change.{ChangeState, staged, applying, same_state_iff, Change}
use ad_agent.Store.Tables.{Tables, Faults, LeaseRow}
use ad_agent.Store.Changes
use ad_agent.Store.Changes.Cas.{transition-Swapped}
use ad_agent.Store.Changes.Audit.{
  IsLogged, IsLogged-same, entries, transition-IsLogged, insert_change-IsLogged,
  insert_change-Inserted,
}
use ad_agent.Store.Changes.Claims.{claims, claims-entries}
use ad_agent.Service.Exec.{Exec}
use ad_agent.Service.Exec.Ensures.{Ensures, Order}
use ad_agent.Service.Platform.{
  Platform, Env, committed, leased, insert_change, transition, fetch, lease, release,
}
use ad_agent.Service.Sending.{Quiet, OneSend, sends}

module _ {D W : Type 0} where
  pub record IsSound (e : Env D W) : Type 0 where
    pub logged : IsLogged e.tables
    pub bounded : (k : String) → sends k e.sent ≤ claims (entries k e.tables.audit)

  -- `e'` is sound if `e` is.
  pub record Preserves (e e' : Env D W) : Type 0 where
    pub at : IsSound e → IsSound e'

  pub Preserves-order : Order Preserves
  Preserves-order = record {
    here = λ e. record { at = λ h. h };
    then_to = λ e f g p q. record { at = λ h. q.at (p.at h) };
  }

  pub IsSound-same :
      {e e' : Env D W}
      → e'.tables.changes ≡ e.tables.changes
      → e'.tables.audit ≡ e.tables.audit
      → e'.sent ≡ e.sent
      → IsSound e
      → IsSound e'
  IsSound-same {e} {e'} p q r h = record {
    logged = IsLogged-same p q h.logged;
    bounded = λ k. rw (q, r) (h.bounded k);
  }

  pub Quiet-Preserves : {A : Type 0} {m : Exec (Env D W) A} → Ensures Quiet m → Ensures Preserves m
  Quiet-Preserves h = record {
    at = λ e. let q = h.at e in record { at = IsSound-same (rw q.tables) (rw q.tables) q.sent };
  }

module _ {D W : Type 0} ⦃p : Platform D W⦄ where
  pub fetch-Preserves : (id : String) → Ensures (Preserves {D = D} {W = W}) (fetch id)
  unfolding fetch
  fetch-Preserves id = record { at = λ e. record { at = IsSound-same refl refl refl } }

  leased-IsSound :
      (e : Env D W) (w : W) (r : Result (List LeaseRow)) → IsSound e → IsSound (leased e w r).1
  leased-IsSound e w (ok ls) h = IsSound-same refl refl refl h
  leased-IsSound e w (err x) h = IsSound-same refl refl refl h

  pub lease-Preserves :
      (id owner : String) (until : ℕ) → Ensures (Preserves {D = D} {W = W}) (lease id owner until)
  unfolding lease
  lease-Preserves id owner until = record { at = λ e. record { at = leased-IsSound e _ _ } }

  pub release-Preserves : (id owner : String) (e : Env D W) → Preserves e (release id owner e)
  unfolding release
  release-Preserves id owner e = record { at = IsSound-same refl refl refl }

  committed-transition :
      (f : Faults) (from : ChangeState) (c : Change D) (now : ℕ) (e : Env D W) (w : W)
      (r : Result (Tables D))
      → Changes.transition f from c now e.tables ≡ r
      → IsSound e
      → IsSound (committed e w r).1
  committed-transition f from c now e w (err x) eq h = IsSound-same refl refl refl h
  committed-transition f from c now e w (ok t) eq h =
      let s = transition-Swapped f from c now e.tables h.logged.distinct eq in
      record {
        logged = transition-IsLogged f from c now e.tables h.logged eq;
        bounded =
            λ k. rw (s.audited, claims-entries k e.tables.audit c now) (omega (arith, h.bounded k));
      }

  pub transition-Preserves :
      (from : ChangeState) (c : Change D) → Ensures (Preserves {W = W}) (transition from c)
  unfolding transition
  transition-Preserves from c = record {
    at = λ e. record { at = committed-transition _ from c _ e _ _ refl };
  }

  committed_insert :
      (f : Faults) (c : Change D) (now : ℕ) (e : Env D W) (w : W) (r : Result (Tables D))
      → c.state ≡ staged
      → Changes.insert_change f c now e.tables ≡ r
      → IsSound e
      → IsSound (committed e w r).1
  committed_insert f c now e w (err x) st eq h = IsSound-same refl refl refl h
  committed_insert f c now e w (ok t) st eq h =
      let i = insert_change-Inserted f c now e.tables eq in
      record {
        logged = insert_change-IsLogged f c now e.tables st h.logged eq;
        bounded =
            λ k. rw (i.audited, claims-entries k e.tables.audit c now) (omega (arith, h.bounded k));
      }

  pub insert_change-Preserves :
      (c : Change D) → c.state ≡ staged → Ensures (Preserves {W = W}) (insert_change c)
  unfolding insert_change
  insert_change-Preserves c st = record {
    at = λ e. record { at = committed_insert _ c _ e _ _ st refl };
  }

  -- A change that was claimed once more often than it was sent.
  pub record IsClaimed (id : String) (e : Env D W) : Type 0 where
    pub sound : IsSound e
    pub unsent : sends id e.sent + 1 ≤ claims (entries id e.tables.audit)

  committed_claim :
      (f : Faults) (c : Change D) (now : ℕ) (e : Env D W) (w : W) (r : Result (Tables D))
      → c.state ≡ applying
      → Changes.transition f staged c now e.tables ≡ r
      → IsSound e
      → (committed e w r).0 ≡ ok tt
      → IsClaimed c.id (committed e w r).1
  committed_claim f c now e w (err x) st eq h done = cc
  committed_claim f c now e w (ok t) st eq h done =
      let s = transition-Swapped f staged c now e.tables h.logged.distinct eq in
      record {
        sound = committed-transition f staged c now e w (ok t) eq h;
        unsent =
            rw (s.audited, claims-entries c.id e.tables.audit c now)
              (ground (arith, h.bounded c.id, eq_iff c.id c.id, same_state_iff c.state applying));
      }

  pub claim-IsClaimed :
      (c : Change D) (e : Env D W)
      → c.state ≡ applying
      → IsSound e
      → (transition staged c e).0 ≡ ok tt
      → IsClaimed c.id (transition staged c e).1
  unfolding transition
  claim-IsClaimed c e st h done = committed_claim _ c _ e _ _ st refl h done

  -- The one call that a claim allows.
  pub IsSound-OneSend :
      {id : String} {e e' : Env D W} → IsClaimed id e → OneSend id e e' → IsSound e'
  IsSound-OneSend {id} {e} {e'} h s = record {
    logged = rw s.tables h.sound.logged;
    bounded = λ k. rw s.tables (ground (arith, s.sent k, h.sound.bounded k, h.unsent, eq_iff id k));
  }
