-- ===== src/Store.antt =====
-- internal/store: the repositories over MySQL, and the cache of task lists in Redis.
pub mod Database
pub mod Audit
pub mod Tasks
pub mod Teams
pub mod Users
pub mod Cache
pub mod Reports
pub mod Connection
