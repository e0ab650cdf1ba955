-- ===== src/Server.antt =====
-- httpserver: the response writer that counts, the handlers that reload, and the server's handler.
pub mod Writer
pub mod Reload
pub mod Mux
pub mod Setters
pub mod Options
pub mod Echo
pub mod Handlers
pub mod Ready
pub mod Run
mod Tests
