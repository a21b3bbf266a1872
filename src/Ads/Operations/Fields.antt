-- ===== src/Ads/Operations/Fields.antt =====
-- internal/ads/operations.go: the checks of one field or one payload that OperationRequest.Validate
-- is made of.
use ad_agent.Prelude.{
  ℕ, String, ◌==◌, Bool, true, false, not, ◌&&◌, ◌||◌, Option, none, some, List, [], ◌∷◌, is_some,
  ltb, eqb, if◌then◌else◌, length, any,
}
use ad_agent.Prelude.Result.{Check, ok, err, ◌>>◌, refuse}
use ad_agent.Prelude.Text.{runes, trimmed, is_blank}
use ad_agent.Ads.Operations.{
  AdCreativeSpec, AdCreativeUpdateSpec, AudienceCreateSpec, CommentActionSpec,
  EventSourceCreateSpec,
}

-- net/url's parts of a URL that the code reads.
pub record Url : Type 0 where
  pub scheme : String
  pub host : String
  pub has_user : Bool

-- Go's time.Parse with the layout 2006-01-02 15:04:05, as seconds, and url.Parse.
pub record Formats : Type 0 where
  pub parse_time : String → Option ℕ
  pub parse_url : String → Option Url

-- overlaps: the map `seen` holds exactly the values of `left`.
unfoldable pub overlaps : List String → List String → Bool
overlaps left right = any (λ r. any (λ l. l == r) left) right

-- oneOf
unfoldable pub one_of : String → List String → Bool
one_of value allowed = any (λ candidate. value == candidate) allowed

-- validateName
unfoldable pub validate_name : String → Check
validate_name v =
    let length_of = length (trimmed v) in
    refuse (eqb length_of 0 || ltb 100 length_of) "name must contain 1 to 100 characters"

module _ (fmt : Formats) where
  https_parts : Option Url → Bool
  https_parts none = false
  https_parts (some u) = u.scheme == "https" && not (u.host == "") && not u.has_user

  -- validHTTPSURL
  unfoldable pub valid_https_url : String → Bool
  unfolding https_parts
  valid_https_url v = https_parts (fmt.parse_url v)

  -- validateTimeRequired
  unfoldable pub validate_time_required : String → Check
  validate_time_required v = refuse (not (is_some (fmt.parse_time v))) "invalid schedule time"

  -- validateTimeOptional
  unfoldable pub validate_time_optional : String → Check
  unfolding validate_time_required
  validate_time_optional v = if v == "" then ok tt else validate_time_required v

  out_of_order : Option ℕ → Option ℕ → Bool
  out_of_order (some start) (some end) = ltb end start
  out_of_order _ _ = true

  -- validateScheduleOrder
  unfoldable pub validate_schedule_order : String → String → Check
  unfolding out_of_order
  validate_schedule_order start end =
      if start == "" || end == ""
      then ok tt
      else refuse (out_of_order (fmt.parse_time start) (fmt.parse_time end))
          "schedule end must not precede schedule start"

  unfoldable pub incomplete_creative : AdCreativeSpec → Bool
  unfolding valid_https_url
  incomplete_creative a =
      a.name == ""
      || a.identity_id == ""
      || a.identity_type == ""
      || a.asset_id == ""
      || not (a.asset_kind == "image") && not (a.asset_kind == "video")
      || a.primary_text == ""
      || a.call_to_action == ""
      || not (valid_https_url a.destination_url)
      || not (a.status == "DISABLE")

  -- The loop over the ads of validateCampaignBundle.
  unfoldable pub validate_creatives : List AdCreativeSpec → Check
  unfolding incomplete_creative validate_name
  validate_creatives [] = ok tt
  validate_creatives (a ∷ rest) = do
    refuse (incomplete_creative a) "invalid ad creative"
    validate_name a.name
    refuse (ltb 100 (length (runes a.primary_text))) "ad primary text is too long"
    validate_creatives rest

  unfoldable pub validate_ad_update : Option AdCreativeUpdateSpec → Check
  unfolding valid_https_url
  validate_ad_update none = err "ad creative update payload required"
  validate_ad_update (some u) = do
    refuse (u.ad_id == "") "ad creative update payload required"
    refuse
        (u.identity_id == ""
          && u.asset_id == ""
          && u.primary_text == ""
          && u.call_to_action == ""
          && u.destination_url == "")
        "ad creative update is empty"
    refuse (not (u.destination_url == "") && not (valid_https_url u.destination_url))
        "invalid destination URL"
    refuse (ltb 100 (length (runes u.primary_text))) "ad primary text is too long"
    ok tt

unfoldable pub validate_audience : Option AudienceCreateSpec → Check
unfolding validate_name
validate_audience none = err "audience payload required"
validate_audience (some a) = do
  refuse (is_blank a.name) "audience payload required"
  refuse (not (a.kind == "saved") && not (a.kind == "lookalike")) "unsupported audience kind"
  refuse (a.kind == "saved" && eqb (length a.location_ids) 0) "saved audience requires locations"
  refuse
      (a.kind == "lookalike"
        && (a.source_audience_id == "" || ltb a.lookalike_ratio 1 || ltb 10 a.lookalike_ratio))
      "invalid lookalike audience"
  validate_name a.name

unfoldable pub validate_comment : Option CommentActionSpec → Check
validate_comment none = err "invalid comment action"
validate_comment (some c) = do
  refuse (c.comment_id == "" || c.ad_id == "" || c.tiktok_item_id == "") "invalid comment action"
  refuse
      (not (c.action == "reply")
        && not (c.action == "hide")
        && not (c.action == "unhide")
        && not (c.action == "delete"))
      "unsupported comment action"
  refuse
      ((c.action == "reply" || c.action == "delete")
        && (c.identity_id == "" || c.identity_type == ""))
      "comment identity fields required"
  refuse (c.action == "reply" && is_blank c.text) "reply fields required"
  ok tt

unfoldable pub validate_event_source : Option EventSourceCreateSpec → Check
unfolding validate_name
validate_event_source none = err "invalid event source"
validate_event_source (some e) = do
  refuse (is_blank e.name || not (e.kind == "pixel") && not (e.kind == "offline"))
      "invalid event source"
  validate_name e.name
