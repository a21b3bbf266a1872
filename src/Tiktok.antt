-- ===== src/Tiktok.antt =====
-- internal/tiktokmapi: the adapter of the TikTok Marketing API.
pub mod Client
pub mod Write
