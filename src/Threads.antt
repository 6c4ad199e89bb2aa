-- ===== src/Threads.antt =====
-- UserLevelThreadLibrary: threads of one process that a scheduler switches by long jumps.
pub mod State
pub mod Scheduler
pub mod Spec
pub mod Arrays
pub mod Refinement
pub mod Progress
pub mod Order
pub mod Guarantees
mod Programs
mod Machine
mod Start
mod Lines
mod Totals
mod Holding
mod Segments
mod Rounds
mod Steps
mod Effects
mod Turns
mod Progression
mod Ledger
mod Finish
mod Told
mod Creation
mod Launch
mod Serial
mod Accounts
mod Orders
pub mod Program
mod Fibonacci
mod Factorial
mod ProgramTests
mod Tests
