-- ===== src/Pool.antt =====
-- MultiThread: a pool of worker threads that run queued jobs.
pub mod State
pub mod Code
pub mod System
pub mod Chain
pub mod Sections
pub mod Invariant
pub mod Steps
pub mod ClientSteps
pub mod Reachable
pub mod Safety
mod Script
mod Ending
mod Tests
