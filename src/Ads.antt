-- ===== src/Ads.antt =====
-- The account-scoped domain: internal/ads.
pub mod Decimal
pub mod Types
pub mod Operations
pub mod Change
pub mod Metrics
pub mod Dates
pub mod Report
pub mod Analysis
pub mod Comparison
