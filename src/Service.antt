-- ===== src/Service.antt =====
-- HierarchicalServiceManagementSystem/service.c: a tree of service processes under a manager.
mod State
mod Spawn
mod Kill
mod Names
mod Removal
mod Adding
mod Growth
mod Commands
mod Clashes
mod Pipes
mod Exchange
mod Seeking
mod Acquiring
mod Swapping
mod ExchangeTests
mod Decimal
mod Words
mod Protocol
mod Manager
mod MessageTests
mod Relay
mod Ending
mod Spawning
mod Killing
mod Obeying
mod Sizes
mod Session
mod Asking
mod Trading
mod Dealing
mod Undoing
mod Tests
