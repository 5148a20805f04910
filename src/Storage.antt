-- ===== src/Storage.antt =====
-- The stores of src/storage/: each without a connection pool (`pool_ == nullptr`), and its statements
-- with one in `Pooled`.
pub mod Statements
pub mod Closing
pub mod Messages
pub mod Members
pub mod Groups
pub mod Users
