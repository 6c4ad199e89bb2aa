-- ===== src/Board.antt =====
-- csieBulletinBoard/server.c: a bulletin board of ten posts in a file, served to many clients.
pub mod State
pub mod Post
pub mod Pull
pub mod Submit
pub mod Command
pub mod Probing
pub mod Slots
pub mod Listing
pub mod Interleaving
pub mod FileLocks
pub mod Message
mod Sessions
mod Client
mod Dialogue
mod ClientTests
mod Connections
mod Serving
mod Visits
mod Rounds
mod Exits
mod Capacity
mod RoundTests
mod Alone
mod Posting
mod Tests
