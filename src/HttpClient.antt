-- ===== src/HttpClient.antt =====
-- internal/httpclient/client.go: the outbound HTTP client with its limits.
pub mod Limiter
pub mod Window
pub mod Flow
pub mod Slots
pub mod Concurrency
pub mod Examples
