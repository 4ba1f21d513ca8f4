-- ===== src/DecisionLoop.antt =====
-- The decision loop of an episode (src/ephi/application/decision_loop.py).
pub mod Model
pub mod State
pub mod Checks
pub mod Actions
pub mod Closing
pub mod Reopening
pub mod Versions
pub mod Sound
pub mod Commands
pub mod Edits
pub mod Returns
pub mod InOrder
pub mod Lifecycle
pub mod Work
pub mod Confirmed
mod Tests
mod ClosureTests
