-- ===== src/Input.antt =====
-- internal/tool/swagger_http_common.go and policy_request_confirmation.go: what the tools read from
-- their inputs, and the two tools for confirmations.
pub mod Values
pub mod Parse
pub mod Trimmed
pub mod Confirm
pub mod Approvals
pub mod Examples
