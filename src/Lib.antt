-- ===== src/Lib.antt =====
-- A distributed file system of extents, locks and clients, as in inode_manager.cc, extent_server.cc,
-- lock_server_cache.cc, lock_client_cache.cc, extent_client_cache.cc, yfs_client.cc and fuse.cc.
--
-- The parts and their files:
--   Disk, Blocks: `class disk` and `class block_manager` of inode_manager.h and inode_manager.cc. The
--     disk is an array of blocks; the block manager marks the blocks in use in a table in memory.
--   Inodes: `class inode_manager`, with the bytes of `struct inode` and of the indirect block. Its
--     state is the disk and the block manager's table. Manager has the inodes, Files the operations
--     on files; the other modules have the invariant and the proofs.
--   Extent: `class extent_server` of extent_server.cc, which calls the inode manager. Calls has the
--     server that extent_smain.cc registers it as, at the other end of the RPC calls.
--   ExtentCache: `class extent_client_cache` of extent_client_cache.cc, a state machine for each file
--     in front of the calls of the extent server.
--   ExtentClient: `class extent_client` of extent_client.cc, the client without a cache.
--   LockServer: `class lock_server_cache` of lock_server_cache.cc. A handler is one step, and the
--     client that it calls is in its result; System has the steps of one lock and its clients.
--   LockClient: `class lock_client_cache` of lock_client_cache.cc, for one lock. The code of a thread
--     between two points where it gives up the mutex is one function; Threads has the threads and
--     the handlers of a client as steps.
--   Locking: the lock server and all its clients as one system of steps, by the functions of
--     LockServer and LockClient; Tester has the threads of lock_tester.cc on that system, whose clients
--     have no `lock_release_user`.
--   YfsClient: `class yfs_client` of yfs_client.cc, over an interface of the extent client and the
--     lock client, Extents; Holds has the laws of that interface. Caching has ExtentCache as that
--     interface.
--   Fuse: the handlers of fuse.cc, which take the kernel's requests and call YfsClient.
--   Stack: Fuse on YfsClient on ExtentCache on Extent, one client with its server and the disk.
--   LockTable: `class lock_server` of lock_server.cc, the plain table of locks and its threads.
--   Handles: `class handle_mgr` and `class handle` of handle.cc, cached connections with counts.
--   Outcome says how a call ends: it returns, it calls `exit`, or its behaviour is undefined.
--   Prelude has the shared names and the lemmas on lists; Tests has runs and concrete instances.
--
-- Numbers of a fixed width wrap around where the code computes with them. A string is a list of
-- bytes. Values that the code reads without having set them are arguments of the model. The clock
-- is an argument. Loops are by recursion on what they count; the loop over a directory's bytes has
-- the number of bytes as fuel, which is enough since its index grows by 2 at least, and printing a
-- number n has n + 1 as fuel, which is enough since each round divides it by 10.
--
-- The RPC library is a parameter: ExtentCache.Rpc for the calls of the extent server, whose promises
-- are ExtentCache.View.Serves and ExtentCache.Create.Creates. Extent.Calls.serving is such a record
-- of calls, by the functions of Extent; the status of a call that gets no answer and what the call of
-- `remove` does with the reply argument that it lacks are parameters there. In Locking a call
-- of `acquire` or of `release` reaches the server once or fails without having reached it, and a call
-- of `release` that fails after it has reached the server is one that returns, as the client does not
-- look at its status. The server's `revoke` may reach a client at any time, and its `retry` may be lost,
-- so that none of its calls is assumed to come in order. In YfsClient and Stack the calls of the lock
-- client are parameters, under the laws YfsClient.Caching.Locks: they change no file that is seen. The
-- number in a directory's entry without a digit, which the code leaves unset, is 0. The FUSE library's writing of a
-- directory's entry is Fuse.Replies.FuseLib.
--
-- Not modelled: the main programs, among them that of fuse.cc, which only start threads, open sockets
-- and fill in tables of handlers; lock_client.cc, each of whose operations is one call of the RPC
-- library; the first test of lock_tester.cc and the other test programs; printing; and the end of
-- memory.
pub mod Prelude
pub mod Outcome
pub mod Disk
pub mod Blocks
pub mod Inodes
pub mod Extent
pub mod ExtentCache
pub mod ExtentClient
mod Tests
pub mod LockServer
pub mod LockClient
pub mod YfsClient
pub mod Handles
pub mod Fuse
pub mod Stack
pub mod Locking
pub mod LockTable
