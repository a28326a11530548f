-- ===== src/Http.antt =====
-- http/application.ts and http/schemas.ts: the routes of the programming interface.
pub mod Answers
pub mod Queries
pub mod Routes
pub mod Application
pub mod Guarded
pub mod Preserved
mod Tests
