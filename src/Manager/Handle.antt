-- ===== src/Manager/Handle.antt =====
-- transaction/manager/handle.cpp: the handlers of the transaction manager.
pub mod Send
pub mod Instances
pub mod Involved
pub mod Reply
pub mod Connect
pub mod User
pub mod Domain
pub mod Exit
