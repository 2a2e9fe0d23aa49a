-- ===== src/Docker.antt =====
-- The package runtime/backend/docker: container specifications and the backend that runs them.
pub mod Spec
pub mod Validation
pub mod Builder
pub mod Options
pub mod Output
pub mod Execution
pub mod Isolation
pub mod Routed
