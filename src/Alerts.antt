-- ===== src/Alerts.antt =====
-- alerts/: deliveries of an Alertmanager, their signatures, and the incidents that they open and
-- close.
pub mod Signature
pub mod Instances
pub mod Ingest
pub mod OneActive
pub mod Processed
pub mod Delivery
pub mod Kept
pub mod Invariants
pub mod Replay
mod Tests
