-- ===== src/Client.antt =====
-- client.go: configuration, the request loop with retries, response handling, and the HTTP methods.
pub mod Data
pub mod World
pub mod Utf8
pub mod Json
pub mod Retry
pub mod Request
pub mod Response
pub mod Methods
pub mod Wait
pub mod Sends
