-- ===== src/Tiktok/Client/Sends.antt =====
-- internal/tiktokmapi/client.go: how many requests a call sends, and what its answer says of them.
use ad_agent.Prelude.{
  ℕ, zero, suc, ◌≤◌, String, ◌==◌, ◌≡◌, refl, ◌∙◌, ap, subst, Bool, true, false, not, ◌&&◌, ◌||◌,
  Option, none, some, List, [], ◌∷◌, ◌++◌, arith, Option-cases, inl, inr, ltb, leb, eqb, if-both,
  if◌then◌else◌,
}
use mathlib.Core.List.{append_assoc}
use text.Mathlib.Text.{starts_with}
use ad_agent.Prelude.Text.{byte_length}
use ad_agent.Tiktok.Client.{
  HttpRequest, Reply, no_reply, cut_off, replied, Envelope, max_body_bytes, CallError, api,
  context_ended, other_error, Called, answered, failed, Network, Wire, has_question_mark,
  read_envelope, read_reply, plain, sent, ended_after, waited, attempt, attempts, no_token,
  cannot_encode, call,
}

-- The kind of a call's *Error.
abbrev pub kind_of : Called → String
kind_of (failed (api e)) = e.kind
kind_of _ = ""

abbrev HasToken : Option Called → Type 0
HasToken none = Unit
HasToken (some c) = (kind_of c == "credential") ≡ false

-- No attempt fails for want of a token.
envelope-kind :
    (decodes : String → Bool) (status : ℕ) (v : Option Envelope)
    → (kind_of (read_envelope decodes status v) == "credential") ≡ false
unfolding read_envelope
envelope-kind decodes status none = refl
envelope-kind decodes status (some v) =
    let P : Called → Type 0 = λ c. (kind_of c == "credential") ≡ false in
    if-both P (ltb status 200 || leb 300 status) refl (
      if-both P (not (eqb v.code 0)) refl (
        if-both P
          (not (v.data_text == "") && not (v.data_text == "null") && not (decodes v.data_text)) refl
          refl))

read-kind :
    (parse : String → Option Envelope) (decodes : String → Bool) (again ended : Bool)
    (reply : Reply)
    → HasToken (read_reply parse decodes again ended reply)
unfolding read_reply
read-kind parse decodes again ended no_reply =
    if-both HasToken ended refl (if-both HasToken again tt refl)
read-kind parse decodes again ended cut_off = refl
read-kind parse decodes again ended (replied status raw) =
    if-both HasToken (ltb max_body_bytes (byte_length raw)) refl (
      if-both HasToken ((eqb status 429 || leb 500 status) && again) tt
        (envelope-kind decodes status (parse raw)))

-- The requests that a call for `r` has sent.
abbrev pub copies : {D : Type 0} → ℕ → HttpRequest D → List (HttpRequest D)
copies zero r = []
copies (suc k) r = r ∷ copies k r

no_copies : {D : Type 0} (l : List (HttpRequest D)) → l ≡ l ++ []
no_copies [] = refl
no_copies (x ∷ l) = ap (λ m. x ∷ m) (no_copies l)

module _ {D W : Type 0} ⦃net : Network D W⦄ where
  -- What an answer says of the requests for `r` that were sent: `n` of them at most, none when the
  -- token was not available, and at least one when the platform has answered with a code.
  pub record Says (n : ℕ) (r : HttpRequest D) (w : Wire D W) (a : Called × Wire D W) : Type 0 where
    pub sent_times : ℕ
    pub at_most : sent_times ≤ n
    pub log : a.1.requests ≡ w.requests ++ copies sent_times r
    pub unsent : (kind_of a.0 == "credential") ≡ true → sent_times ≡ 0
    pub reached : {id : String} → a.0 ≡ answered id → 1 ≤ sent_times
    pub refused : (kind_of a.0 == "business") ≡ true → 1 ≤ sent_times

  ended_after-requests :
      (reply : Reply) (w : Wire D W) → (ended_after reply w).1.requests ≡ w.requests
  ended_after-requests no_reply w = refl
  ended_after-requests cut_off w = refl
  ended_after-requests (replied s raw) w = refl

  attempt-requests :
      (decodes : String → Bool) (again : Bool) (r : HttpRequest D) (w : Wire D W)
      → (attempt decodes again r w).1.requests ≡ w.requests ++ r ∷ []
  unfolding attempt
  attempt-requests decodes again r w = ended_after-requests (sent r w).0 (sent r w).1

  attempt-HasToken :
      (decodes : String → Bool) (again : Bool) (r : HttpRequest D) (w : Wire D W)
      → HasToken (attempt decodes again r w).0
  unfolding attempt
  attempt-HasToken decodes again r w =
      read-kind net.parse_envelope decodes again (ended_after (sent r w).0 (sent r w).1).0
        (sent r w).0

  waited-requests : (first : Bool) (w : Wire D W) → (waited first w).1.requests ≡ w.requests
  waited-requests true w = refl
  waited-requests false w = refl

  -- An answer for a request that had its token.
  record Tried (n : ℕ) (r : HttpRequest D) (w : Wire D W) (a : Called × Wire D W) : Type 0 where
    pub says : Says n r w a
    pub tokened : (kind_of a.0 == "credential") ≡ false

  -- The call ends before its request is sent.
  stopped-Tried :
      (n : ℕ) (r : HttpRequest D) (w v : Wire D W) (c : CallError)
      → v.requests ≡ w.requests
      → (kind_of (failed c) == "credential") ≡ false
      → (kind_of (failed c) == "business") ≡ false
      → Tried n r w (failed c, v)
  stopped-Tried n r w v c same not_token not_business = record {
    says = record {
      sent_times = 0;
      at_most = omega arith;
      log = same ∙ no_copies w.requests;
      unsent = λ h. refl;
      reached = λ h. cc h;
      refused = λ h. cc (h, not_business);
    };
    tokened = not_token;
  }

  attempts-Tried :
      (decodes : String → Bool) (retry first : Bool) (n : ℕ) (r : HttpRequest D) (w : Wire D W)
      → Tried n r w (attempts decodes retry first n r w)
  unfolding attempts
  attempts-Tried decodes retry first zero r w =
      stopped-Tried zero r w w (plain "transport") refl refl refl
  attempts-Tried decodes retry first (suc n) r w =
      let start = waited first w in
      let again = retry && not (eqb n 0) in
      let tried = attempt decodes again r start.1 in
      let rest = attempts-Tried decodes retry false n r tried.1 in
      let more_said = rest.says in
      let untouched = waited-requests first w in
      let one : tried.1.requests ≡ w.requests ++ r ∷ [] =
        attempt-requests decodes again r start.1 ∙ ap (λ l. l ++ r ∷ []) untouched in
      let token_held : (c : Called) → tried.0 ≡ some c → (kind_of c == "credential") ≡ false =
        λ c done. subst HasToken done (attempt-HasToken decodes again r start.1) in
      if-both (Tried (suc n) r w) start.0
        (stopped-Tried (suc n) r w start.1 context_ended untouched refl refl)
        (if-both (Tried (suc n) r w) (not (net.builds r))
          (stopped-Tried (suc n) r w start.1 (other_error "build TikTok MAPI request") untouched
            refl refl)
          (elim (Option-cases tried.0) [
            | inl more ↦ rw more (record {
              says = record {
                sent_times = suc more_said.sent_times;
                at_most = omega (arith, more_said.at_most);
                log =
                    more_said.log
                    ∙ ap (λ l. l ++ copies more_said.sent_times r) one
                    ∙ append_assoc w.requests (r ∷ []) (copies more_said.sent_times r);
                unsent = λ h. cc (h, rest.tokened);
                reached = λ h. omega arith;
                refused = λ h. omega arith;
              };
              tokened = rest.tokened;
            })
            | inr (c, done) ↦ rw done (record {
              says = record {
                sent_times = 1;
                at_most = omega arith;
                log = one;
                unsent = λ h. cc (h, token_held c done);
                reached = λ h. omega arith;
                refused = λ h. omega arith;
              };
              tokened = token_held c done;
            })
          ]))

  no_token-Says :
      (n : ℕ) (r : HttpRequest D) (w v : Wire D W)
      → v.requests ≡ w.requests
      → Says n r w (failed (plain "credential"), v)
  no_token-Says n r w v same = record {
    sent_times = 0;
    at_most = omega arith;
    log = same ∙ no_copies w.requests;
    unsent = λ h. refl;
    reached = λ h. cc h;
    refused = λ h. cc h;
  }

  Says-before :
      (n : ℕ) (r : HttpRequest D) (w v : Wire D W) (a : Called × Wire D W)
      → v.requests ≡ w.requests
      → Says n r v a
      → Says n r w a
  Says-before n r w v a same t = record {
    sent_times = t.sent_times;
    at_most = t.at_most;
    log = t.log ∙ ap (λ l. l ++ copies t.sent_times r) same;
    unsent = t.unsent;
    reached = t.reached;
    refused = t.refused;
  }

  -- A read is sent three times at most and any other call at most once, whatever the network does;
  -- a call that fails for want of a token was not sent; and an answer, or an error of the platform's
  -- own, comes of a request that was sent.
  pub call-Says :
      (advertiser : String) (decodes : String → Bool) (retry : Bool) (r : HttpRequest D)
      (w : Wire D W)
      → Says (if retry then 3 else 1) r w (call advertiser decodes retry r w)
  unfolding call
  call-Says advertiser decodes retry r w =
      let n = if retry then 3 else 1 in
      let (token, v) = net.resolve advertiser w.world in
      let ready = record w { world = v } in
      if-both (Says n r w) (not (starts_with r.path "/open_api/v1.3/") || has_question_mark r.path)
        (stopped-Tried n r w w (other_error "invalid TikTok MAPI path") refl refl refl).says
        (if-both (Says n r w) (no_token token) (no_token-Says n r w ready refl) (
          if-both (Says n r w) (cannot_encode net.marshals r.body)
            (stopped-Tried n r w ready (other_error "encode TikTok MAPI request") refl refl
              refl).says
            (Says-before n r w ready _ refl (attempts-Tried decodes retry true n r ready).says)))
