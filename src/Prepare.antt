-- ===== src/Prepare.antt =====
-- internal/tool/swagger_http_common.go: from an operation and an input to the request that is sent.
pub mod Template
pub mod Url
pub mod Body
pub mod Request
pub mod Correct
pub mod Filled
pub mod Segments
pub mod Headers
pub mod Examples
