-- ===== src/Tests.antt =====
-- Concrete runs of the operations, at which the theorems are applied.
mod Rules
mod Texts
mod Requests
mod Responses
mod Operations
mod Forms
mod Types
mod Network
mod Handlers
