-- ===== src/Server.antt =====
-- src/server: the keys of a server's users, and the storage that they are kept in.
pub mod Ordered
pub mod Crypt
pub mod Errors
pub mod Groups
pub mod KeyMgmt
pub mod Storage
pub mod LocalStorage
