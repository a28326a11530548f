-- ===== src/Database.antt =====
-- The state that the services share: the tables of migrations/, the transaction of
-- database/transaction.ts, and what the runtime hands in (clocks, digests, fresh identifiers).
pub mod Tables
pub mod Transaction
pub mod Atomic
pub mod Sample
