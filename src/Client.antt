-- ===== src/Client.antt =====
-- httpclient: the middleware pipeline and the integrity of downloads.
pub mod Middleware
pub mod Integrity
pub mod Values
pub mod Cacheable
pub mod Redact
pub mod Auth
pub mod Content
pub mod Fetch
pub mod Location
pub mod Headers
pub mod Download
pub mod Trace
pub mod Expr
pub mod Network
mod Tests
