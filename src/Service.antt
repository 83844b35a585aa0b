-- ===== src/Service.antt =====
-- internal/service: the business logic, over the interfaces that it declares.
pub mod Gateways
pub mod Authorization
pub mod Tasks
pub mod Teams
pub mod Auth
pub mod Analytics
