-- ===== src/Planner.antt =====
-- The next-check planner (src/ephi/application/planner.py).
pub mod Facts
pub mod Templates
pub mod Eligibility
pub mod Score
pub mod Ranking
pub mod Recommendation
pub mod Select
pub mod Plan
pub mod Returns
pub mod Loop
pub mod Partition
pub mod Complete
pub mod Bounds
pub mod Redundancy
pub mod Best
pub mod Progress
pub mod Eligible
pub mod Assured
mod Example
pub mod Tests
