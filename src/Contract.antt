-- ===== src/Contract.antt =====
-- internal/tool/swagger_http_common.go: requests and responses against the operation's contract.
pub mod Operation
pub mod Checks
pub mod Schema
pub mod Validator
pub mod Ink
pub mod Conforms
pub mod Decides
pub mod Depth
pub mod Unroll
pub mod Validate
pub mod Accepts
pub mod Examples
