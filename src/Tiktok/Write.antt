-- ===== src/Tiktok/Write.antt =====
-- internal/tiktokmapi/writer.go: one update of one object, sent after an approval.
pub mod Outcome
use ad_agent.Prelude.{
  String, ◌==◌, Bool, true, false, not, ◌&&◌, ◌||◌, Option, none, some, List, [], ◌∷◌,
  if◌then◌else◌,
}
use ad_agent.Prelude.Result.{Result, ok, err, ◌>>=◌, refuse}
use ad_agent.Ads.Decimal.{Decimal, is_positive}
use ad_agent.Ads.Types.{
  Level, campaign, ad_group, ad, Entity, WriteRequest, WriteOutcome, is_status, check_entity,
}
use ad_agent.Tiktok.Client.{
  Json, number_value, text_value, text_values, flag_value, HttpRequest, ApiError, api, Called,
  answered, failed, Network, Wire, call,
}

module _ {D : Type 0} where
  unfoldable pub update : String → List (String × Json D) → Result (String × List (String × Json D))
  update path fields = ok (path, fields)

  unfoldable pub budget_path :
      String → Level → String → D → Result (String × List (String × Json D))
  unfolding update
  budget_path advertiser campaign id v = update "/open_api/v1.3/campaign/update/" (
      ("advertiser_id", text_value advertiser)
      ∷ ("budget", number_value v)
      ∷ ("campaign_id", text_value id)
      ∷ [])
  budget_path advertiser ad_group id v = update "/open_api/v1.3/adgroup/update/" (
      ("advertiser_id", text_value advertiser)
      ∷ ("budget", number_value v)
      ∷ ("adgroup_id", text_value id)
      ∷ [])
  budget_path advertiser ad id v = err "budget_not_supported"
  budget_path advertiser _ id v = err "unsupported_change"

  unfoldable pub status_path :
      String → Level → String → String → Result (String × List (String × Json D))
  unfolding update
  status_path advertiser campaign id status = update "/open_api/v1.3/campaign/status/update/" (
      ("advertiser_id", text_value advertiser)
      ∷ ("operation_status", text_value status)
      ∷ ("campaign_ids", text_values (id ∷ []))
      ∷ [])
  status_path advertiser ad_group id status = update "/open_api/v1.3/adgroup/status/update/" (
      ("advertiser_id", text_value advertiser)
      ∷ ("operation_status", text_value status)
      ∷ ("adgroup_ids", text_values (id ∷ []))
      ∷ ("allow_partial_success", flag_value false)
      ∷ [])
  status_path advertiser ad id status = update "/open_api/v1.3/ad/status/update/" (
      ("advertiser_id", text_value advertiser)
      ∷ ("operation_status", text_value status)
      ∷ ("ad_ids", text_values (id ∷ []))
      ∷ [])
  status_path advertiser _ id status = err "unsupported_change"

module _ {D : Type 0} ⦃dec : Decimal D⦄ where
  unfoldable pub budget_update :
      String → Entity D → Option D → Result (String × List (String × Json D))
  unfolding budget_path
  budget_update advertiser e none = err "budget_not_supported"
  budget_update advertiser e (some v) =
      if not (is_positive v)
      then err "budget_not_supported"
      else budget_path advertiser e.level e.id v

  -- Backend.writeRequest: the path and the fields, in an order of their own, since they are a map.
  unfoldable pub write_request : String → WriteRequest D → Result (String × List (String × Json D))
  unfolding budget_update status_path is_status
  write_request advertiser w =
      if w.kind == "budget"
      then budget_update advertiser w.target w.budget
      else if w.kind == "status"
      then if not (is_status w.status)
        then err "unsupported_operation_status"
        else status_path advertiser w.target.level w.target.id w.status
      else err "unsupported_change"

-- What an answer means for the change that the update was sent for.
unfoldable pub outcome_of : Called → WriteOutcome
outcome_of (answered id) = record { state = "acknowledged"; request_id = id; message = "" }
outcome_of (failed (api e)) =
    if e.kind == "credential"
    then record { state = "not_sent"; request_id = ""; message = "credential_unavailable" }
    else if e.kind == "business"
    then record { state = "rejected"; request_id = e.request_id; message = "platform_rejected" }
    else record { state = "unknown"; request_id = e.request_id; message = "remote_outcome_unknown" }
outcome_of (failed _) = record {
  state = "unknown";
  request_id = "";
  message = "remote_outcome_unknown";
}

abbrev pub not_sent : String → WriteOutcome
not_sent message = record { state = "not_sent"; request_id = ""; message = message }

module _ {D W : Type 0} ⦃dec : Decimal D⦄ ⦃net : Network D W⦄ where
  -- Client.post with no value to decode.
  unfoldable pub post : String → String → List (String × Json D) → Wire D W → Called × Wire D W
  post advertiser path fields w =
      call advertiser (λ answer. true) false
        (record { method = "POST"; path = path; query = ""; body = some fields }) w

  unfoldable pub posted :
      String → Result (String × List (String × Json D)) → Wire D W → WriteOutcome × Wire D W
  unfolding post outcome_of
  posted advertiser (err e) w = (not_sent e, w)
  posted advertiser (ok (path, fields)) w =
      let (answer, v) = post advertiser path fields w in (outcome_of answer, v)

  -- Backend.Write for the advertiser of the client.
  unfoldable pub write : String → Bool → WriteRequest D → Wire D W → WriteOutcome × Wire D W
  unfolding posted write_request
  write advertiser cancelled r w =
      if cancelled
      then (not_sent "request_cancelled", w)
      else elim (check_entity r.target advertiser) [
        | err e ↦ (not_sent "invalid_target", w)
        | ok u ↦ posted advertiser (write_request advertiser r) w
      ]
