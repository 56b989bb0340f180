-- ===== src/Field.antt =====
-- The field buffers of buffer/source/field.cpp: values under the ids of fields, each id as often as
-- it was added.
pub mod Buffer
pub mod Items
pub mod Places
pub mod Memory
pub mod Sequence
pub mod Pool
pub mod Traversal
pub mod Found
pub mod Append
pub mod Remove
pub mod Update
pub mod Codes
pub mod Received
mod Tests
