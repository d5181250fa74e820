-- ===== src/Tools.antt =====
-- The tools of internal/tool that prepare and check requests and responses, and the bodies of
-- responses.
pub mod Bodies
pub mod Canonical
pub mod RoundTrip
pub mod Checks
pub mod Verdicts
pub mod Examples
