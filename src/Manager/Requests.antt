-- ===== src/Manager/Requests.antt =====
-- What becomes of the requests of the owners of transactions.
pub mod Users
pub mod Serves
pub mod Nothing
pub mod Returns
