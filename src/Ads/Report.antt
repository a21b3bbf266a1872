-- ===== src/Ads/Report.antt =====
-- internal/ads/types.go: ReportQuery, Row and Report.
pub mod Window
use ad_agent.Prelude.{ℕ, ◌-◌, String, Bool, not, ◌||◌, Option, none, some, List, ltb}
use ad_agent.Prelude.Result.{Result, Check, ok, err, ◌>>=◌, ◌>>◌, refuse}
use ad_agent.Ads.Types.{Level, is_valid_level, Source}
use ad_agent.Ads.Dates.{parse_date}
use ad_agent.Ads.Metrics.{Metrics}

pub record Row (D : Type 0) : Type 0 where
  pub entity_id : String
  pub date : String
  pub metrics : Metrics D

pub record ReportQuery : Type 0 where
  pub level : Level
  pub start_date : String
  pub end_date : String
  pub entity_id : String

abbrev pub required_date : String → String → Result ℕ
required_date s e = elim (parse_date s) [ none ↦ err e | some d ↦ ok d ]

-- ReportQuery.Validate
unfoldable pub validate_query : ReportQuery → Check
unfolding is_valid_level
validate_query q = do
  refuse (not (is_valid_level q.level)) "invalid report level"
  a ← required_date q.start_date "invalid start_date"
  b ← required_date q.end_date "invalid end_date"
  refuse (ltb b a || ltb 92 (b - a)) "report window must be 1–93 inclusive days"

pub record Report (D : Type 0) : Type 0 where
  pub id : String
  pub source : Source
  pub query : ReportQuery
  pub currency : String
  pub timezone : String
  pub attribution : String
  pub fetched_at : ℕ
  pub complete : Bool
  pub limitations : List String
  pub rows : List (Row D)
  pub totals : Metrics D
  pub request_ids : List String
