-- ===== src/Service/Apply/Ends.antt =====
-- How an Apply that succeeds ends: the store holds what it returns.
use ad_agent.Prelude.{String, ◌≡◌, refl, subst, true}
use ad_agent.Prelude.Result.{Result, ok, err}
use ad_agent.Ads.Decimal.{Decimal}
use ad_agent.Ads.Change.{staged, applying, expired, can_transition, Change, Digests}
use ad_agent.Service.Exec.Completes.{Done}
use ad_agent.Service.Exec.Triple.{
  Triple, Post, Triple-result, Triple-pure, Triple-if, Triple-reject, Triple-finally, Triple-bind,
}
use ad_agent.Service.Platform.{Platform, Env}
use ad_agent.Service.Limits.{Service}
use ad_agent.Service.Limits.Quiet.{refresh_policy-Quiet}
use ad_agent.Service.Safety.{
  IsSound, Quiet-Preserves, lease-Preserves, claim-IsClaimed, IsClaimed, IsSound-OneSend,
}
use ad_agent.Service.Perform.Outcome.{perform_done, Outcome}
use ad_agent.Service.Perform.Sends.{perform-OneSend}
use ad_agent.Service.Keep.{keep_ask, keep_call}
use ad_agent.Service.Kinds.{Preserves-Kept}
use ad_agent.Service.Stored.{
  Stored, Triple-Preserves, fetch-Stored, transition-Stored, release-Stored,
}
use ad_agent.Service.Apply.{
  claimed, expire, record_result, run_claimed, execute, approve, admit, apply,
}

module _ {D W : Type 0} where
  -- `d` is what the execution of the change `id` has come to, and the store holds it.
  abbrev pub Ended : String → Change D → Env D W → Type 0
  Ended id d e = Stored d e × (d.id ≡ id) × (can_transition applying d.state ≡ true)

module _ {D W : Type 0} ⦃p : Platform D W⦄ where
  expire-Ended : (c : Change D) → Triple (IsSound {W = W}) (expire c) (Ended c.id)
  unfolding expire can_transition
  expire-Ended c =
      Triple-bind _ _ (transition-Stored staged (record c { state = expired }))
        (λ u. Triple-pure _ (λ e h. (h, refl, refl)))

  record_result-Ended :
      (c d : Change D) → Outcome c d → Triple (IsSound {W = W}) (record_result d) (Ended c.id)
  unfolding record_result
  record_result-Ended c d o =
      Triple-bind _ _ (transition-Stored applying d) (λ u. Triple-pure _ (λ e h. (h, o.0, o.3)))

module _ {D W : Type 0} ⦃p : Platform D W⦄ where
  claim-Post :
      (id : String) (r : Result (Unit {0})) (e : Env D W)
      → (r ≡ ok tt → IsClaimed id e)
      → Post (λ u. IsClaimed id) r e
  claim-Post id (ok u) e h = h refl
  claim-Post id (err x) e h = tt

module _ {D W : Type 0} where
  Done-Post :
      (c : Change D) (r : Result (Change D)) (e : Env D W)
      → Done (Unit {0}) (Outcome c) r
      → IsSound e
      → Post (λ d e. IsSound e × Outcome c d) r e
  Done-Post c (ok d) e o h = (h, o)
  Done-Post c (err x) e o h = tt

module _ {D W : Type 0} ⦃p : Platform D W⦄ ⦃dec : Decimal D⦄ ⦃dig : Digests D⦄ where
  run_claimed-Ended :
      (s : Service D) (c : Change D)
      → c.state ≡ applying
      → Triple (IsSound {W = W}) (run_claimed s c) (Ended c.id)
  unfolding run_claimed
  run_claimed-Ended s c st =
      Triple-bind _ _ (record { at = λ e h. claim-Post c.id _ _ (claim-IsClaimed c e st h) })
        (λ u.
          Triple-bind _ _
            (record {
              at = λ e h.
                  Done-Post c _ _ ((perform_done s c).at e)
                    (IsSound-OneSend h ((perform-OneSend s c).at e));
            })
            (λ d. record { at = λ e h. (record_result-Ended c d h.1).at e h.0 }))

  execute-Ended :
      (s : Service D) (c : Change D) (operator : String)
      → Triple (IsSound {W = W}) (execute s c operator) (Ended c.id)
  unfolding execute
  execute-Ended s₀ c operator =
      Triple-bind _ _ (Triple-Preserves (Quiet-Preserves (refresh_policy-Quiet s₀))) (λ s.
        Triple-bind _ _ (Triple-Preserves (keep_ask Preserves-Kept _)) (λ now.
          Triple-bind _ _ (Triple-Preserves (keep_ask Preserves-Kept _))
            (λ attempt. run_claimed-Ended s (claimed c operator now attempt) refl)))

  approve-Ended :
      (s : Service D) (c : Change D) (operator : String)
      → Triple (IsSound {W = W}) (approve s c operator) (Ended c.id)
  unfolding approve
  approve-Ended s c operator = Triple-bind _ _ (Triple-Preserves (keep_call Preserves-Kept _)) (λ a.
      Triple-reject _ _ _ (λ _. Triple-reject _ _ _ (λ _. Triple-reject _ _ _ (λ _.
        Triple-bind _ _ (Triple-Preserves (keep_ask Preserves-Kept _)) (λ owner.
          Triple-bind _ _ (Triple-Preserves (keep_ask Preserves-Kept _)) (λ now.
            Triple-bind _ _ (Triple-Preserves (lease-Preserves _ _ _)) (λ u.
              Triple-finally _ _ (λ d e h. (release-Stored _ _ d e h.0, h.1, h.2))
                (execute-Ended s c operator))))))))

  admit-Ended :
      (s : Service D) (session_id operator : String) (c : Change D)
      → Triple (IsSound {W = W}) (admit s session_id operator c) (Ended c.id)
  unfolding admit
  admit-Ended s session_id operator c = Triple-reject _ _ _ (λ _. Triple-reject _ _ _ (λ _.
      Triple-bind _ _ (Triple-Preserves (keep_ask Preserves-Kept _))
        (λ now. Triple-if _ _ _ (λ _. expire-Ended c) (λ _. approve-Ended s c operator))))

  apply-Ended_triple :
      (s : Service D) (session_id id operator : String)
      → Triple (IsSound {W = W}) (apply s session_id id operator) (Ended id)
  unfolding apply
  apply-Ended_triple s session_id id operator = Triple-bind _ _ (fetch-Stored id) (λ c. record {
    at = λ e h.
        let r = admit s session_id operator c e in
        subst (λ k. Post (Ended k) r.0 r.1) h.2 ((admit-Ended s session_id operator c).at e h.0);
  })

  -- From a sound state, an Apply that returns a change and no error has stored exactly that change
  -- under the id it was asked for, and its state is one that `applying` leads to: applied, failed,
  -- indeterminate or expired.
  pub apply-Ended :
      (s : Service D) (session_id id operator : String) (e : Env D W) {d : Change D}
      → IsSound e
      → (apply s session_id id operator e).0 ≡ ok d
      → Ended id d (apply s session_id id operator e).1
  apply-Ended s session_id id operator e h eq =
      Triple-result (Ended id) (apply-Ended_triple s session_id id operator) e h eq
