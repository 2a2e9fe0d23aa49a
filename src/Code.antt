-- ===== src/Code.antt =====
-- The package code: running a snippet of code that calls tools.
pub mod Copies
pub mod Tools
pub mod Executor
pub mod Limits
pub mod Traces
pub mod RuntimeEngine
pub mod Configuration
