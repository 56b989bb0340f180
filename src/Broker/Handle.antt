-- ===== src/Broker/Handle.antt =====
-- The handlers of broker/source/handle.cpp.
pub mod Connect
pub mod Service
pub mod Dead
