-- ===== src/Domain.antt =====
-- domain/errors.ts and domain/principal.ts, with security/authorization.ts.
pub mod Errors
pub mod Principal
