-- ===== src/YfsClient.antt =====
-- The file system of a client: `class yfs_client` of yfs_client.h and yfs_client.cc, over an extent
-- client and a lock client. Text has the texts of a directory and Operations the operations; the
-- other modules have the proofs.
pub mod Codec
pub mod Words
pub mod Text
pub mod Values
pub mod Operations
pub mod Holds
pub mod Bytes
pub mod Content
pub mod Entries
pub mod Directory
pub mod Unlink
pub mod Resize
pub mod Reading
pub mod Caching
pub mod Durable
