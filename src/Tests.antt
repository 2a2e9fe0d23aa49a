-- ===== src/Tests.antt =====
-- Concrete inputs for the theorems.
mod Fixture
mod Runs
mod Streams
mod Runtimes
mod Gateways
mod Containers
mod Facades
mod Snippets
mod Sources
mod Proxies
mod Sandboxes
mod Hosts
mod Contracts
mod Outputs
