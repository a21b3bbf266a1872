-- ===== src/Ads/Metrics.antt =====
-- internal/ads/types.go: Metrics. An int64 is its bit pattern, a number below 2 ^ 64, and its sum
-- wraps around; a nil pointer is `none`.
use ad_agent.Prelude.{ℕ, ◌+◌, ◌%◌, ◌^◌, Bool, ◌&&◌, Option, none, some, ltb, if◌then◌else◌}
use ad_agent.Ads.Decimal.{Decimal, is_zero}

-- `+` on int64, and `> 0`.
abbrev pub add64 : ℕ → ℕ → ℕ
add64 a b = (a + b) % 2 ^ 64

abbrev pub positive64 : ℕ → Bool
positive64 a = ltb 0 a && ltb a (2 ^ 63)

pub record Metrics (D : Type 0) : Type 0 where
  pub spend : D
  pub impressions : ℕ
  pub clicks : ℕ
  pub conversions : Option D
  pub revenue : Option D
  pub reach : Option ℕ
  pub landing_page_views : Option ℕ
  pub video_views_2s : Option ℕ
  pub video_views_6s : Option ℕ
  pub video_views_complete : Option ℕ

-- addOptionalInt
unfoldable pub add_optional_int : Option ℕ → Option ℕ → Option ℕ
add_optional_int (some a) (some b) = some (add64 a b)
add_optional_int _ _ = none

module _ {D : Type 0} ⦃dec : Decimal D⦄ where
  -- ZeroMetrics
  abbrev pub zero_metrics : Metrics D
  zero_metrics = record {
    spend = dec.of_int 0;
    impressions = 0;
    clicks = 0;
    conversions = some (dec.of_int 0);
    revenue = some (dec.of_int 0);
    reach = some 0;
    landing_page_views = some 0;
    video_views_2s = some 0;
    video_views_6s = some 0;
    video_views_complete = some 0;
  }

  unfoldable pub add_optional : Option D → Option D → Option D
  add_optional (some a) (some b) = some (dec.plus a b)
  add_optional _ _ = none

  -- Metrics.Add: a sum never claims a reach.
  unfoldable pub add : Metrics D → Metrics D → Metrics D
  unfolding add_optional add_optional_int
  add m n = record {
    spend = dec.plus m.spend n.spend;
    impressions = add64 m.impressions n.impressions;
    clicks = add64 m.clicks n.clicks;
    conversions = add_optional m.conversions n.conversions;
    revenue = add_optional m.revenue n.revenue;
    reach = none;
    landing_page_views = add_optional_int m.landing_page_views n.landing_page_views;
    video_views_2s = add_optional_int m.video_views_2s n.video_views_2s;
    video_views_6s = add_optional_int m.video_views_6s n.video_views_6s;
    video_views_complete = add_optional_int m.video_views_complete n.video_views_complete;
  }

  -- Ratio
  unfoldable pub ratio : Option D → D → Option D
  ratio none d = none
  ratio (some n) d = if is_zero d then none else some (dec.over n d)

  -- Metrics.ROAS
  abbrev pub roas : Metrics D → Option D
  roas m = ratio m.revenue m.spend
