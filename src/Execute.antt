-- ===== src/Execute.antt =====
-- internal/tool/swagger_execute.go and internal/correlation: the tool that makes upstream calls.
pub mod Env
pub mod BaseUrl
pub mod Sandbox
pub mod Tool
pub mod Gates
pub mod Cleared
pub mod Effects
pub mod Examples
