-- ===== src/Web.antt =====
-- internal/web: the login limiter, the sessions, the diff, the handlers and the routes.
pub mod RateLimit
pub mod Diff
pub mod Session
pub mod Deploying
pub mod World
pub mod Forms
pub mod Response
pub mod Moment
pub mod Handlers
pub mod Server
pub mod Service
