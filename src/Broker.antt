-- ===== src/Broker.antt =====
-- The broker of a domain: broker/source/state.cpp and broker/source/handle.cpp.
pub mod Message
pub mod State
pub mod Monad
pub mod Store
pub mod Handle
pub mod Dispatch
pub mod Order
pub mod Exclusive
pub mod Served
pub mod Listeners
pub mod Failures
mod Tests
