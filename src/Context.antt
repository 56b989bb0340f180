-- ===== src/Context.antt =====
-- The transactions of a server and its calls that wait: common/source/transaction and
-- common/source/call/state.cpp.
pub mod Code
pub mod State
pub mod Monad
pub mod Pending
pub mod Resources
pub mod Commit
pub mod Stack
pub mod Finalize
pub mod Calls
pub mod Connect
mod Tests
pub mod Adds
pub mod Lists
pub mod Starts
pub mod Suspended
pub mod Whole
pub mod Refused
pub mod Effects
pub mod Commits
pub mod Controls
