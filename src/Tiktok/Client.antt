-- ===== src/Tiktok/Client.antt =====
-- internal/tiktokmapi/client.go: a call of the API. The network, the vault of tokens, the caller's
-- context and Go's JSON decoder are one world that answers and moves on; nothing is assumed of it.
-- The requests that reach the network are recorded in `requests`.
pub mod Sends
use Prim.Native.Char.{code}
use Prim.Native.String
use ad_agent.Prelude.{
  ℕ, zero, suc, String, ◌==◌, Bool, true, false, not, ◌&&◌, ◌||◌, Option, none, some, List, [], ◌∷◌,
  ◌++◌, ltb, leb, eqb, if◌then◌else◌,
}
use text.Mathlib.Text.{starts_with}
use ad_agent.Prelude.Text.{byte_length}
use ad_agent.Prelude.Result.{Result, ok, err}
use ad_agent.Store.MemoryText.{has_line_break}

-- A value of a request's JSON.
pub data Json (D : Type 0) : Type 0 where
  number_value : D → Json D
  text_value : String → Json D
  text_values : List String → Json D
  flag_value : Bool → Json D

pub record HttpRequest (D : Type 0) : Type 0 where
  pub method : String
  pub path : String
  pub query : String
  pub body : Option (List (String × Json D))

-- What http.Client.Do and io.ReadAll come to.
pub data Reply : Type 0 where
  no_reply : Reply
  cut_off : Reply
  replied : ℕ → String → Reply

pub record Envelope : Type 0 where
  pub code : ℕ  -- the bit pattern of an int64
  pub request_id : String
  pub data_text : String

pub record ApiError : Type 0 where
  pub kind : String
  pub status_code : ℕ
  pub code : ℕ
  pub request_id : String

-- The errors of a call: an *Error, the context's error, and the others.
pub data CallError : Type 0 where
  api : ApiError → CallError
  context_ended : CallError
  other_error : String → CallError

pub data Called : Type 0 where
  answered : String → Called
  failed : CallError → Called

pub record Network (D W : Type 0) : Type 0 where
  pub resolve : String → W → Result String × W
  pub marshals : List (String × Json D) → Bool
  pub builds : HttpRequest D → Bool
  pub exchange : HttpRequest D → W → Reply × W
  pub has_ended : W → Bool × W  -- ctx.Err, and ctx.Done before the timer
  pub parse_envelope : String → Option Envelope

pub record Wire (D W : Type 0) : Type 0 where
  pub world : W
  pub requests : List (HttpRequest D)

abbrev pub max_body_bytes : ℕ
max_body_bytes = 2_097_152

abbrev pub plain : String → CallError
plain kind = api (record { kind = kind; status_code = 0; code = 0; request_id = "" })

-- strings.Contains(path, "?")
unfoldable pub has_question_mark : String → Bool
has_question_mark String.[] = false
has_question_mark (String.◌∷◌ c s) = eqb (code c) 63 || has_question_mark s

-- The envelope of an answer that has a status. `decodes` says whether the data are what the caller
-- asks for.
unfoldable pub read_envelope : (String → Bool) → ℕ → Option Envelope → Called
read_envelope decodes status none =
    failed
      (api (record { kind = "invalid_response"; status_code = status; code = 0; request_id = "" }))
read_envelope decodes status (some v) =
    if ltb status 200 || leb 300 status
    then failed
        (api (record { kind = "http"; status_code = status; code = 0; request_id = v.request_id }))
    else if not (eqb v.code 0)
    then failed (
        api
          (record { kind = "business"; status_code = 0; code = v.code; request_id = v.request_id }))
    else if not (v.data_text == "") && not (v.data_text == "null") && not (decodes v.data_text)
    then failed (
        api (record {
          kind = "invalid_response";
          status_code = 0;
          code = 0;
          request_id = v.request_id;
        }))
    else answered v.request_id

-- What one attempt comes to; none is another attempt. `again` says that there may be one.
abbrev unanswered : Bool → Bool → Option Called
unanswered ended again =
    if ended
    then some (failed context_ended)
    else if again
    then none
    else some (failed (plain "transport"))

unfoldable pub read_reply :
    (String → Option Envelope) → (String → Bool) → Bool → Bool → Reply → Option Called
unfolding read_envelope
read_reply parse decodes again ended no_reply = unanswered ended again
read_reply parse decodes again ended cut_off = some (failed (plain "response"))
read_reply parse decodes again ended (replied status raw) =
    if ltb max_body_bytes (byte_length raw)
    then some (failed (plain "response_too_large"))
    else if (eqb status 429 || leb 500 status) && again
    then none
    else some (read_envelope decodes status (parse raw))

no_token : Result String → Bool
no_token (err e) = true
no_token (ok token) = token == "" || has_line_break token

cannot_encode :
    {D : Type 0} → (List (String × Json D) → Bool) → Option (List (String × Json D)) → Bool
cannot_encode marshals none = false
cannot_encode marshals (some fields) = not (marshals fields)

module _ {D W : Type 0} ⦃net : Network D W⦄ where
  abbrev pub sent : HttpRequest D → Wire D W → Reply × Wire D W
  sent r w =
      let (reply, v) = net.exchange r w.world in
      (reply, record { world = v; requests = w.requests ++ r ∷ [] })

  abbrev pub polled : Wire D W → Bool × Wire D W
  polled w = let (ended, v) = net.has_ended w.world in (ended, record w { world = v })

  -- The wait before every attempt but the first: whether the context ends in it.
  abbrev pub waited : Bool → Wire D W → Bool × Wire D W
  waited first w = if first then (false, w) else polled w

  -- ctx.Err is asked for only when there is no reply.
  abbrev pub ended_after : Reply → Wire D W → Bool × Wire D W
  ended_after no_reply w = polled w
  ended_after _ w = (false, w)

  unfoldable pub attempt :
      (String → Bool) → Bool → HttpRequest D → Wire D W → Option Called × Wire D W
  unfolding read_reply
  attempt decodes again r w =
      let (reply, v) = sent r w in
      let (ended, u) = ended_after reply v in
      (read_reply net.parse_envelope decodes again ended reply, u)

  -- The loop over the attempts, of which `n` are left.
  unfoldable pub attempts :
      (String → Bool) → Bool → Bool → ℕ → HttpRequest D → Wire D W → Called × Wire D W
  unfolding attempt
  attempts decodes retry first zero r w = (failed (plain "transport"), w)
  attempts decodes retry first (suc n) r w =
      let start = waited first w in
      let tried = attempt decodes (retry && not (eqb n 0)) r start.1 in
      let rest = attempts decodes retry false n r tried.1 in
      if start.0
      then (failed context_ended, start.1)
      else if not (net.builds r)
      then (failed (other_error "build TikTok MAPI request"), start.1)
      else elim tried.0 [ none ↦ rest | some c ↦ (c, tried.1) ]

  -- Client.call for the advertiser: three attempts for a read, one for any other call.
  unfoldable pub call :
      String → (String → Bool) → Bool → HttpRequest D → Wire D W → Called × Wire D W
  unfolding no_token cannot_encode attempts
  call advertiser decodes retry r w =
      let (token, v) = net.resolve advertiser w.world in
      let ready = record w { world = v } in
      if not (starts_with r.path "/open_api/v1.3/") || has_question_mark r.path
      then (failed (other_error "invalid TikTok MAPI path"), w)
      else if no_token token
      then (failed (plain "credential"), ready)
      else if cannot_encode net.marshals r.body
      then (failed (other_error "encode TikTok MAPI request"), ready)
      else attempts decodes retry true (if retry then 3 else 1) r ready
