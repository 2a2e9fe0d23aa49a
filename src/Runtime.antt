-- ===== src/Runtime.antt =====
-- The package runtime: requests, limits, and the routing of a request to a backend.
pub mod Types
pub mod Kinds
pub mod Limits
pub mod Router
pub mod Contract
