-- ===== src/Order.antt =====
-- The order buffers of buffer/source/order.cpp: values that are read in the order in which they
-- were written.
pub mod Buffer
pub mod Format
pub mod Append
pub mod Select
pub mod Roundtrip
pub mod Bounds
pub mod Pool
mod Tests
