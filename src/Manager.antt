-- ===== src/Manager.antt =====
-- The transaction manager: middleware/transaction.
pub mod Code
pub mod Model
pub mod Message
pub mod State
pub mod Monad
pub mod Keeps
pub mod Action
pub mod Handle
pub mod Pump
pub mod Invariant
pub mod Involvement
pub mod Decision
pub mod Requests
pub mod Sample
mod Tests
