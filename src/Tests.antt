-- ===== src/Tests.antt =====
-- Runs at concrete inputs.
mod Data
mod Requests
mod Rows
mod Rules
mod Founding
mod Caching
mod Answers
mod Startup
mod Limits
mod Reports
mod Guards
mod Coherent
mod Owned
