-- ===== src/Run.antt =====
-- The package run: resolve a tool, validate, dispatch to a backend, normalise; chains and streams.
pub mod Types
pub mod Config
pub mod Resolve
pub mod Dispatch
pub mod Normalize
pub mod Runner
pub mod Chain
pub mod Stream
