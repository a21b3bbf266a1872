-- ===== src/Service/Apply/Sound.antt =====
-- Apply keeps the invariant: the claim pays for the one call that follows it.
use ad_agent.Prelude.{String, ◌≡◌, refl}
use ad_agent.Prelude.Result.{Result, Check, ok, err}
use ad_agent.Ads.Decimal.{Decimal}
use ad_agent.Ads.Change.{staged, applying, Change, Digests}
use ad_agent.Service.Exec.{Exec, ◌>>=◌, proceed}
use ad_agent.Service.Exec.Ensures.{Ensures, Ensures-finally}
use ad_agent.Service.Platform.{Platform, Env, transition}
use ad_agent.Service.Limits.{Service, refresh_policy}
use ad_agent.Service.Limits.Quiet.{refresh_policy-Quiet}
use ad_agent.Service.Perform.{perform}
use ad_agent.Service.Perform.Sends.{perform-OneSend}
use ad_agent.Service.Safety.{
  IsSound, Preserves, Preserves-order, Quiet-Preserves, release-Preserves, transition-Preserves,
  IsClaimed, claim-IsClaimed, IsSound-OneSend,
}
use ad_agent.Service.Keep.{keep_rules}
use ad_agent.Service.Kinds.{Preserves-Kept}
use ad_agent.Service.Apply.{expire, run_claimed, execute, approve, admit, apply, record_result}

module _ {D W A B : Type 0} where
  -- After a part that ends soundly, a rest that keeps the invariant.
  IsSound-then :
      (r : Result A) (e : Env D W) (k : A → Exec (Env D W) B)
      → IsSound e
      → ((a : A) → Ensures Preserves (k a))
      → IsSound (proceed r k e).1
  IsSound-then (ok a) e k h f = ((f a).at e).at h
  IsSound-then (err x) e k h f = h

module _ {D W : Type 0} ⦃p : Platform D W⦄ where
  expire-Preserves : (c : Change D) → Ensures (Preserves {W = W}) (expire c)
  unfolding expire
  expire-Preserves c = search (keep_rules, Preserves-Kept)

  record_result-Preserves : (c : Change D) → Ensures (Preserves {W = W}) (record_result c)
  unfolding record_result
  record_result-Preserves c = search (keep_rules, Preserves-Kept)

module _ {D W : Type 0} ⦃p : Platform D W⦄ ⦃dec : Decimal D⦄ ⦃dig : Digests D⦄ where
  claimed-IsSound :
      (s : Service D) (c : Change D) (r : Check) (e : Env D W)
      → IsSound e
      → (r ≡ ok tt → IsClaimed c.id e)
      → IsSound (proceed r (λ _. perform s c >>= record_result) e).1
  unfolding ◌>>=◌
  claimed-IsSound s c (ok u) e h claim =
      let sent = IsSound-OneSend (claim refl) ((perform-OneSend s c).at e) in
      IsSound-then (perform s c e).0 (perform s c e).1 record_result sent record_result-Preserves
  claimed-IsSound s c (err x) e h claim = h

  run_claimed-Preserves :
      (s : Service D) (c : Change D)
      → c.state ≡ applying
      → Ensures (Preserves {W = W}) (run_claimed s c)
  unfolding run_claimed ◌>>=◌
  run_claimed-Preserves s c st = record {
    at = λ e. record {
      at = λ h.
          claimed-IsSound s c (transition staged c e).0 (transition staged c e).1
            (((transition-Preserves staged c).at e).at h) (claim-IsClaimed c e st h);
    };
  }

  keep_policy : (s : Service D) → Ensures (Preserves {W = W}) (refresh_policy s)
  keep_policy s = Quiet-Preserves (refresh_policy-Quiet s)

  execute-Preserves :
      (s : Service D) (c : Change D) (operator : String)
      → Ensures (Preserves {W = W}) (execute s c operator)
  unfolding execute
  execute-Preserves s c operator =
      search (keep_rules, Preserves-Kept, keep_policy, run_claimed-Preserves) depth 8

  approve-Preserves :
      (s : Service D) (c : Change D) (operator : String)
      → Ensures (Preserves {W = W}) (approve s c operator)
  unfolding approve
  approve-Preserves s c operator =
      search
        (
          keep_rules,
          Preserves-Kept,
          Ensures-finally Preserves-order,
          release-Preserves,
          execute-Preserves,
        )
        depth 12

  admit-Preserves :
      (s : Service D) (session_id operator : String) (c : Change D)
      → Ensures (Preserves {W = W}) (admit s session_id operator c)
  unfolding admit
  admit-Preserves s session_id operator c =
      search (keep_rules, Preserves-Kept, expire-Preserves, approve-Preserves) depth 8

  pub apply-Preserves :
      (s : Service D) (session_id id operator : String)
      → Ensures (Preserves {W = W}) (apply s session_id id operator)
  unfolding apply
  apply-Preserves s session_id id operator = search (keep_rules, Preserves-Kept, admit-Preserves)
