-- ===== src/Resource.antt =====
-- internal/resouce: the stores of MCP resources.
pub mod Store
pub mod Composite
pub mod Memory
pub mod Examples
