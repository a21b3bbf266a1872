-- ===== src/Tiktok/Write/Outcome.antt =====
-- internal/tiktokmapi/writer.go: what the outcome of an update says of what was sent.
use ad_agent.Prelude.{
  ◌≤◌, ℕ, zero, suc, String, ◌==◌, eq_iff, ◌≡◌, ◌≢◌, ◌⊎◌, refl, sym, ◌∙◌, ap, subst, length,
  length-append, Bool, true, false, List, [], ◌∷◌, ◌++◌, some, arith, Bool-cases, inl, inr,
}
use mathlib.Core.List.{append-nil}
use ad_agent.Prelude.Result.{ok, Result-cases}
use ad_agent.Ads.Decimal.{Decimal}
use ad_agent.Ads.Types.{WriteRequest, WriteOutcome, check_entity}
use ad_agent.Tiktok.Client.{
  Json, HttpRequest, api, context_ended, other_error, Called, answered, failed, Network, Wire, call,
}
use ad_agent.Tiktok.Client.Sends.{kind_of, copies, call-Says}
use ad_agent.Tiktok.Write.{write_request, outcome_of, not_sent, post, posted, write}

-- The request for an update.
abbrev pub request_for : {D : Type 0} → String → List (String × Json D) → HttpRequest D
request_for path fields = record { method = "POST"; path = path; query = ""; body = some fields }

differ : {s t : String} → s ≡ t → ¬ ((s == t) ≡ false)
differ {s} {t} h = λ k. ground (arith, h, k, eq_iff s t)

outcome-unsent :
    (c : Called) → (outcome_of c).state ≡ "not_sent" → (kind_of c == "credential") ≡ true
unfolding outcome_of
outcome-unsent (answered id) h = absurd (differ h refl)
outcome-unsent (failed (api e)) h = elim (Bool-cases (e.kind == "credential")) [
  | inl x ↦ x
  | inr x ↦ elim (Bool-cases (e.kind == "business")) [
    | inl y ↦ let other : "rejected" ≡ "not_sent" = rw (x, y) at h in absurd (differ other refl)
    | inr y ↦ let other : "unknown" ≡ "not_sent" = rw (x, y) at h in absurd (differ other refl)
  ]
]
outcome-unsent (failed context_ended) h = absurd (differ h refl)
outcome-unsent (failed (other_error x)) h = absurd (differ h refl)

outcome-reached :
    (c : Called)
    → (outcome_of c).state ≢ "not_sent"
    → (outcome_of c).state ≢ "unknown"
    → ((id : String) × (c ≡ answered id)) ⊎ ((kind_of c == "business") ≡ true)
unfolding outcome_of
outcome-reached (answered id) n u = inl (id, refl)
outcome-reached (failed (api e)) n u = elim (Bool-cases (e.kind == "business")) [
  | inl y ↦ inr y
  | inr y ↦ elim (Bool-cases (e.kind == "credential")) [
    | inl x ↦ absurd (n (rw x refl))
    | inr x ↦ absurd (u (rw (x, y) refl))
  ]
]
outcome-reached (failed context_ended) n u = absurd (u refl)
outcome-reached (failed (other_error x)) n u = absurd (u refl)

module _ {D : Type 0} (r : HttpRequest D) (log : List (HttpRequest D)) where
  none_sent : {k : ℕ} {now : List (HttpRequest D)} → now ≡ log ++ copies k r → k ≡ 0 → now ≡ log
  none_sent {k} {now} h zero_times =
      let now_empty : now ≡ log ++ [] = subst (λ j. now ≡ log ++ copies j r) zero_times h in
      now_empty ∙ append-nil log

  one_sent :
      {k : ℕ} {now : List (HttpRequest D)} → now ≡ log ++ copies k r → k ≡ 1 → now ≡ log ++ r ∷ []
  one_sent {k} {now} h one_time = subst (λ j. now ≡ log ++ copies j r) one_time h

  length-copies : (k : ℕ) → length (copies k r) ≡ k
  length-copies zero = refl
  length-copies (suc k) = ap suc (length-copies k)

  some_sent : {k : ℕ} {now : List (HttpRequest D)} → now ≡ log ++ copies k r → 1 ≤ k → now ≢ log
  some_sent {k} h some_times same = absurd (
      omega (
        arith,
        some_times,
        ap length (sym same ∙ h),
        length-append log (copies k r),
        length-copies k,
      ))

at_most_one : (k : ℕ) → k ≤ 1 → (k ≡ 0) ⊎ (k ≡ 1)
at_most_one zero h = inl refl
at_most_one (suc zero) h = inr refl
at_most_one (suc (suc k)) h = absurd (omega (arith, h))

module _ {D W : Type 0} ⦃dec : Decimal D⦄ ⦃net : Network D W⦄ where
  -- What an outcome says of the requests since `w`: none is said to be sent when none was, and what
  -- the platform has acknowledged or rejected is the one request for this update.
  pub record Honest (advertiser : String) (r : WriteRequest D) (w : Wire D W)
      (a : WriteOutcome × Wire D W) : Type 0 where
    pub unsent : a.0.state ≡ "not_sent" → a.1.requests ≡ w.requests
    pub once :
        (a.1.requests ≡ w.requests)
        ⊎ ((path : String) × (fields : List (String × Json D)) × (write_request advertiser r
              ≡ ok (path, fields))
            × (a.1.requests ≡ w.requests ++ request_for path fields ∷ []))
    pub reached : a.0.state ≢ "not_sent" → a.0.state ≢ "unknown" → a.1.requests ≢ w.requests

  refused-Honest :
      (advertiser : String) (r : WriteRequest D) (w : Wire D W) (message : String)
      → Honest advertiser r w (not_sent message, w)
  refused-Honest advertiser r w message = record {
    unsent = λ h. refl;
    once = inl refl;
    reached = λ n u. absurd (n refl);
  }

  posted-Honest :
      (advertiser : String) (r : WriteRequest D) (w : Wire D W) (path : String)
      (fields : List (String × Json D))
      → write_request advertiser r ≡ ok (path, fields)
      → Honest advertiser r w (posted advertiser (ok (path, fields)) w)
  unfolding posted post outcome_of
  posted-Honest advertiser r w path fields made =
      let sends = call-Says advertiser (λ answer. true) false (request_for path fields) w in
      let one = request_for path fields in
      let answer_of = (call advertiser (λ answer. true) false one w).0 in
      record {
        unsent =
            λ h. none_sent one w.requests sends.log (sends.unsent (outcome-unsent answer_of h));
        once = elim (at_most_one sends.sent_times sends.at_most) [
          | inl zero_times ↦ inl (none_sent one w.requests sends.log zero_times)
          | inr one_time ↦ inr (path, fields, made, one_sent one w.requests sends.log one_time)
        ];
        reached = λ n u.
            let sent_some : 1 ≤ sends.sent_times = elim (outcome-reached answer_of n u) [
              | inl (id, answer) ↦ sends.reached answer
              | inr business ↦ sends.refused business
            ] in
            some_sent one w.requests sends.log sent_some;
      }

  -- Whatever the network does, one approved update sends one request at most, the one that stands for
  -- it; an outcome "not_sent" says that none was sent; and an outcome that is neither that nor
  -- "unknown" says that it was.
  pub write-Honest :
      (advertiser : String) (cancelled : Bool) (r : WriteRequest D) (w : Wire D W)
      → Honest advertiser r w (write advertiser cancelled r w)
  unfolding write
  write-Honest advertiser true r w = refused-Honest advertiser r w "request_cancelled"
  write-Honest advertiser false r w = elim (Result-cases (check_entity r.target advertiser)) [
    | inl (e, refused) ↦ rw (refused, write) (refused-Honest advertiser r w "invalid_target")
    | inr (u, passed) ↦ elim (Result-cases (write_request advertiser r)) [
      | inl (e, unmade) ↦ rw (passed, unmade, write, posted) (refused-Honest advertiser r w e)
      | inr ((path, fields), made) ↦
          rw (passed, made, write) (posted-Honest advertiser r w path fields made)
    ]
  ]
