-- ===== src/Service/Apply/Guards.antt =====
-- What has been checked before Apply sends anything.
use ad_agent.Prelude.{
  ℕ, ◌<◌, String, ◌==◌, eq_iff, ◌≡◌, refl, ◌⊎◌, inl, inr, true, false, not, ◌&&◌, ◌||◌, leb, arith,
}
use ad_agent.Prelude.Result.{ok, ok-injective}
use ad_agent.Ads.Decimal.{Decimal}
use ad_agent.Ads.Types.{Account, same_source, same_source→eq}
use ad_agent.Ads.Change.{staged, same_state, same_state_iff, Change, Digests}
use ad_agent.Service.Exec.Ensures.{Ensures, bind_from, reject_from, if_from}
use ad_agent.Service.Platform.{Platform, Env, fetch, ask, call}
use ad_agent.Service.Limits.{Service}
use ad_agent.Service.Keep.{keep_rules}
use ad_agent.Service.Kinds.{Unless, Unless-Kept, Unless-order}
use ad_agent.Service.Apply.{lacks_writer, expire, approve, admit, apply}

module _ {D W : Type 0} ⦃p : Platform D W⦄ where
  -- An approval that `admit` lets through at `e`: the operator approves a staged change of the
  -- session before it expires, the account that the backend answers is the change's, it is the
  -- sandbox or live writes are on, and the service has the writer that the change needs.
  pub record Admitted (s : Service D) (session_id operator : String) (c : Change D) (e : Env D W)
      : Type 0 where
    pub session : c.session_id ≡ session_id
    pub named : ¬ (operator ≡ "")
    pub state : c.state ≡ staged
    pub in_time : (p.now e.world).0 < c.expires_at
    pub account : Account
    pub answered : (p.account (p.now e.world).1).0 ≡ ok account
    pub source : account.source ≡ c.source
    pub live : (account.source.backend ≡ "sandbox") ⊎ (s.policy.live_writes ≡ true)
    pub writer : lacks_writer s c.kind ≡ false

  Admitted-of :
      (s : Service D) (session_id operator : String) (c : Change D) (e : Env D W) (now : ℕ)
      (a : Account)
      → (not (c.session_id == session_id) || operator == "") ≡ false
      → not (same_state c.state staged) ≡ false
      → (p.now e.world).0 ≡ now
      → leb c.expires_at now ≡ false
      → (p.account (p.now e.world).1).0 ≡ ok a
      → not (same_source a.source c.source) ≡ false
      → (not (a.source.backend == "sandbox") && not s.policy.live_writes) ≡ false
      → lacks_writer s c.kind ≡ false
      → Admitted s session_id operator c e
  Admitted-of s session_id operator c e now a scope stage at due answer src live writer = record {
    session = ground (arith, scope, eq_iff c.session_id session_id);
    named = ground (arith, scope, eq_iff operator "");
    state = ground (arith, stage, same_state_iff c.state staged);
    in_time = rw at (ground (arith, due));
    account = a;
    answered = answer;
    source = same_source→eq a.source c.source (ground (arith, src));
    live = ground (arith, live, eq_iff a.source.backend "sandbox");
    writer = writer;
  }

  expire-Unless : (P : Type 0) (c : Change D) → Ensures (Unless {W = W} P) (expire c)
  unfolding expire
  expire-Unless P c = search (keep_rules, Unless-Kept)

module _ {D W : Type 0} ⦃p : Platform D W⦄ ⦃dec : Decimal D⦄ ⦃dig : Digests D⦄ where
  admit_guard :
      (s : Service D) (session_id operator : String) (c : Change D) (e : Env D W)
      → Unless (Admitted s session_id operator c e) e (admit s session_id operator c e).1
  unfolding admit approve ask call
  admit_guard s session_id operator c e =
      let P = Admitted s session_id operator c e in
      let o = Unless-order P in
      reject_from o _ _ _ e (λ scope. reject_from o _ _ _ e (λ stage.
        bind_from o (ask p.now) _ e (inl refl) (λ now at.
          if_from o (leb c.expires_at now) (expire c) (approve s c operator) _
            (λ _. (expire-Unless P c).at _)
            (λ due. bind_from o (call p.account) _ _ (inl refl) (λ a answer.
              reject_from o _ _ _ _ (λ src. reject_from o _ _ _ _ (λ live.
                reject_from o _ _ _ _ (λ writer. inr (
                  Admitted-of s session_id operator c e now a scope stage (ok-injective at) due
                    answer src live writer)))))))))

  -- The change that Apply was asked for, as Store.Change returns it, and its admission.
  abbrev pub Approved : Service D → String → String → String → Env D W → Type 0
  Approved s session_id id operator e =
      (c : Change D) × ((fetch id e).0 ≡ ok c) × Admitted s session_id operator c (fetch id e).1

  Admitted-change :
      (s : Service D) (session_id id operator : String) (e : Env D W) (c : Change D) (x y : Env D W)
      → (fetch id e).0 ≡ ok c
      → Unless (Admitted s session_id operator c (fetch id e).1) x y
      → Unless (Approved s session_id id operator e) x y
  Admitted-change s session_id id operator e c x y found (inl h) = inl h
  Admitted-change s session_id id operator e c x y found (inr h) = inr (c, found, h)

  -- Apply hands nothing to the backend, or the stored change of that id was admitted: its session
  -- asked for it, an operator is named, it is staged and has not expired on the clock, the
  -- backend's account is of the change's source, the backend is the sandbox or live writes are
  -- enabled, and the writer for its kind is present.
  pub apply-Approved :
      (s : Service D) (session_id id operator : String) (e : Env D W)
      → ((apply s session_id id operator e).1.sent ≡ e.sent) ⊎ Approved s session_id id operator e
  unfolding apply fetch
  apply-Approved s session_id id operator e =
      let o = Unless-order (Approved s session_id id operator e) in
      bind_from o (fetch id) _ e (inl refl) (λ c found.
        Admitted-change s session_id id operator e c (fetch id e).1
          (admit s session_id operator c (fetch id e).1).1 found
          (admit_guard s session_id operator c (fetch id e).1))
