-- ===== src/Web.antt =====
-- Package web: sessions, middleware, throttle, handlers and error pages (web/).
mod Examples
pub mod Context
pub mod Throttle
pub mod Flash
pub mod Render
pub mod Secure
pub mod Access
pub mod Handlers
pub mod Failure
pub mod Router
pub mod Tracing
pub mod Answers
pub mod Sessions
