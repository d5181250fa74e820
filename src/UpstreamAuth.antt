-- ===== src/UpstreamAuth.antt =====
-- internal/upstreamauth: the credentials that an upstream request is given.
pub mod Fixed
pub mod OAuth
pub mod Cache
pub mod Examples
