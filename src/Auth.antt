-- ===== src/Auth.antt =====
-- internal/auth: the claims of a token, the two validators, and the middleware before the handlers.
pub mod Claims
pub mod Validators
pub mod Admitted
pub mod Cache
pub mod Introspected
pub mod Examples
