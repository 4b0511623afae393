-- ===== src/Fuse.antt =====
-- The file system's front: the handlers of fuse.cc, which take a request of the kernel, call the
-- operations of yfs_client.cc and reply. Requests are named in main's table of operations.
pub mod Replies
pub mod Handlers
pub mod Attributes
pub mod Naming
pub mod Paging
pub mod RoundTrips
pub mod Undoing
