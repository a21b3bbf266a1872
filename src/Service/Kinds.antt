-- ===== src/Service/Kinds.antt =====
-- The relations that every call without a mutation keeps.
use ad_agent.Prelude.{◌≡◌, refl, ◌∙◌, ◌⊎◌, inl, inr, List}
use ad_agent.Prelude.Result.{Result, ok, err}
use ad_agent.Store.Tables.{Tables, LeaseRow}
use ad_agent.Service.Exec.Ensures.{Order}
use ad_agent.Service.Platform.{
  Platform, Env, Sent, committed, leased, fetch, lease, release, transition, insert_change,
}
use ad_agent.Service.Safety.{
  Preserves, Preserves-order, Quiet-Preserves, fetch-Preserves, lease-Preserves, release-Preserves,
  transition-Preserves, insert_change-Preserves,
}
use ad_agent.Service.Keep.{Kept}

module _ {D W : Type 0} ⦃p : Platform D W⦄ where
  pub Preserves-Kept : Kept (Preserves {D = D} {W = W})
  Preserves-Kept = record {
    order = Preserves-order;
    quiet = λ A m h. Quiet-Preserves h;
    fetches = fetch-Preserves;
    leases = lease-Preserves;
    releases = release-Preserves;
    transitions = transition-Preserves;
    inserts = insert_change-Preserves;
  }

module _ {D W : Type 0} where
  -- A part that sends nothing, or one that has sent only when `P` holds.
  abbrev pub Unless : Type 0 → Env D W → Env D W → Type 0
  Unless P e e' = (e'.sent ≡ e.sent) ⊎ P

  pub Unless-order : (P : Type 0) → Order (Unless P)
  Unless-order P = record { here = λ e. inl refl; then_to = λ e f g h k. both h k }
    where
      both : {x y z : List (Sent D)} → (y ≡ x) ⊎ P → (z ≡ y) ⊎ P → (z ≡ x) ⊎ P
      both (inr h) k = inr h
      both (inl h) (inr k) = inr k
      both (inl h) (inl k) = inl (k ∙ h)

module _ {D W : Type 0} ⦃p : Platform D W⦄ where
  committed_sent : (e : Env D W) (w : W) (r : Result (Tables D)) → (committed e w r).1.sent ≡ e.sent
  committed_sent e w (ok t) = refl
  committed_sent e w (err x) = refl

  leased_sent : (e : Env D W) (w : W) (r : Result (List LeaseRow)) → (leased e w r).1.sent ≡ e.sent
  leased_sent e w (ok t) = refl
  leased_sent e w (err x) = refl

  pub Unless-Kept : (P : Type 0) → Kept (Unless {D = D} {W = W} P)
  unfolding fetch lease release transition insert_change
  Unless-Kept P = record {
    order = Unless-order P;
    quiet = λ A m h. record { at = λ e. inl (h.at e).sent };
    fetches = λ id. record { at = λ e. inl refl };
    leases = λ id owner until. record { at = λ e. inl (leased_sent e _ _) };
    releases = λ id owner e. inl refl;
    transitions = λ from c. record { at = λ e. inl (committed_sent e _ _) };
    inserts = λ c st. record { at = λ e. inl (committed_sent e _ _) };
  }
