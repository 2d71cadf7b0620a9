-- ===== src/Router.antt =====
-- backend/internal/router: which vendor serves a request.
pub mod Affinity
pub mod Health
pub mod Options
pub mod Select
