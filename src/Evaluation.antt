-- ===== src/Evaluation.antt =====
-- The evaluation of projects (modules/evaluation).
mod Grades
mod Bounds
mod Schema
mod Queries
mod Weights
mod Scoring
mod Advising
mod Finalization
mod Decision
mod System
mod Guards
mod Invariant
mod Locking
mod Contracts
mod Submission
mod Tests
