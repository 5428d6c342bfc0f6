-- ===== src/Web.antt =====
-- The web server of internal/web: what it decides without the network.
pub mod Auth
pub mod Changes
