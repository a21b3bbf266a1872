-- ===== src/Ads/Report/Window.antt =====
-- The window of a query that ReportQuery.Validate accepts.
use ad_agent.Prelude.{ℕ, ◌-◌, ◌≤◌, String, ◌≡◌, true, not, ◌||◌, some, ltb, arith}
use ad_agent.Prelude.Result.{ok, refuse, bind_parts, refuse_passed}
use ad_agent.Ads.Types.{is_valid_level}
use ad_agent.Ads.Dates.{parse_date}
use ad_agent.Ads.Report.{ReportQuery, required_date, validate_query}

-- A query that has passed its check.
pub record Window (q : ReportQuery) : Type 0 where
  pub known : is_valid_level q.level ≡ true
  pub first : ℕ
  pub last : ℕ
  pub starts : parse_date q.start_date ≡ some first
  pub ends : parse_date q.end_date ≡ some last
  pub forward : first ≤ last
  pub short : last - first ≤ 92

required : (s e : String) {d : ℕ} → required_date s e ≡ ok d → parse_date s ≡ some d
required s e h = ground (arith, h)

-- A query passes its check only with a known level and two dates of which the second is at most 92
-- days after the first.
pub validate_query-Window : (q : ReportQuery) → validate_query q ≡ ok tt → Window q
unfolding validate_query
validate_query-Window q h =
    let (u, level, h₁) = bind_parts (refuse (not (is_valid_level q.level)) _) _ h in
    let (a, start, h₂) = bind_parts (required_date q.start_date _) _ h₁ in
    let (b, end, h₃) = bind_parts (required_date q.end_date _) _ h₂ in
    let within = refuse_passed (ltb b a || ltb 92 (b - a)) _ h₃ in
    let passed = refuse_passed (not (is_valid_level q.level)) _ level in
    record {
      known = ground (arith, passed);
      first = a;
      last = b;
      starts = required q.start_date _ start;
      ends = required q.end_date _ end;
      forward = ground (arith, within);
      short = ground (arith, within);
    }
