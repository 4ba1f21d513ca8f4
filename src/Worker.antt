-- ===== src/Worker.antt =====
-- The durable worker queue (src/ephi/application/worker.py, src/ephi/infrastructure/postgresql_worker.py).
pub mod Model
pub mod Queue
pub mod Claims
pub mod Health
pub mod Leases
pub mod Effects
pub mod Rows
pub mod Steps
pub mod Invariant
pub mod Entry
pub mod Runs
pub mod Stale
pub mod Fencing
pub mod Once
pub mod Order
pub mod Sweep
pub mod Dedup
pub mod Tests
