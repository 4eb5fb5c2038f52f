-- ===== src/Auth.antt =====
-- internal/auth: who a connection is, what it may do, and how often it may try.
pub mod Errors
pub mod RateLimit
pub mod Token
pub mod Validate
pub mod Authorize
mod Tests
