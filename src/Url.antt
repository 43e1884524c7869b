-- ===== src/Url.antt =====
-- The parts of Go's `net/url` that the client relies on: escaping, form values, query parsing.
pub mod Escape
pub mod Values
pub mod Settings
pub mod Query
pub mod Path
