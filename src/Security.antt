-- ===== src/Security.antt =====
-- security/: who a request is from, and whether the session still holds.
pub mod Authentication
pub mod Sessions
pub mod Egress
mod Tests
