-- ===== src/Match.antt =====
-- central_server/match: the stored matches (`Store`) and their JSON configuration (`Config`).
pub mod Config
pub mod Store
