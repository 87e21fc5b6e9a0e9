-- ===== src/Web/Handlers.antt =====
-- The handlers of internal/web/handlers.go and internal/web/zones.go, and what they do to the state.
pub mod Login
pub mod Pages
pub mod Records
pub mod Zones
pub mod Quiet
pub mod Audited
pub mod Preserved
pub mod Deployed
