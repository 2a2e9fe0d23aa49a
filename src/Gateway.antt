-- ===== src/Gateway.antt =====
-- The packages below runtime/gateway: how sandboxed code reaches the tools.
pub mod Direct
pub mod Proxy
