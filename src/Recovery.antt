-- ===== src/Recovery.antt =====
-- Recovery of an episode (src/ephi/recovery.py): the evaluator and the in-memory service.
pub mod Model
pub mod Evaluator
pub mod Service
pub mod Tests
