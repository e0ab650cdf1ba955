-- ===== src/Template.antt =====
-- internal/uritemplates: the RFC 6570 engine. `Types` holds its data, `Escape` the percent encoding,
-- `Parse` the reader, `Expand` the two expansions; their proofs are their children.
pub mod Types
pub mod Escape
pub mod Parse
pub mod Expand
pub mod Wrapper
mod Tests
