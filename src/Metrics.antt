-- ===== src/Metrics.antt =====
-- central_server/metrics: the stored rows (`Store`) and the scores (`Scoring`).
pub mod Store
pub mod Scoring
