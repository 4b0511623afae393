-- ===== src/Extent.antt =====
-- The extent server: `class extent_server` of extent_server.h and extent_server.cc, a front of the
-- inode manager. All its operations answer `OK`.
pub mod Laws
pub mod Calls
pub mod Named
pub mod Serving
pub mod Creating
use naive_file_system.Prelude.{ℕ, ◌%◌, ◌^◌, List, length}
use naive_file_system.Outcome.{Outcome, ret, ◌>>=◌}
use naive_file_system.Inodes.{Times}
use naive_file_system.Inodes.Manager.{InodeManager, new_inode_manager, alloc_inode}
use naive_file_system.Inodes.Files.{
  Attr, fetched, read_file, write_file, remove_file, getattr as inode_getattr,
}

-- `id &= 0x7fffffff`
abbrev pub masked : ℕ → ℕ
masked id = id % 2 ^ 31

-- `extent_server::extent_server`.
unfoldable pub new_extent_server : ℕ → (ℕ → ℕ) → Times → InodeManager
new_extent_server unset stack t = new_inode_manager unset stack t

unfoldable pub create : ℕ → Times → InodeManager → Outcome (ℕ × InodeManager)
create type t im = alloc_inode type t im

unfoldable pub put : ℕ → List ℕ → Times → InodeManager → Outcome InodeManager
put id buf t im =
    write_file im.bm (masked id) buf (length buf % 2 ^ 32) t >>= λ bm. ret (record im { bm = bm })

unfoldable pub get : ℕ → Times → InodeManager → Outcome (List ℕ × InodeManager)
get id t im = do
  (r, bm) ← read_file im.bm (masked id) t
  buf ← fetched r
  ret (buf, record im { bm = bm })

-- The attributes are all 0 before the inode manager fills them in.
abbrev pub no_attr : Attr
no_attr = record { type = 0; atime = 0; mtime = 0; ctime = 0; size = 0 }

unfoldable pub getattr : ℕ → InodeManager → Outcome Attr
getattr id im = inode_getattr im.bm (masked id) no_attr

unfoldable pub remove : ℕ → InodeManager → Outcome InodeManager
remove id im = remove_file im.bm (masked id) >>= λ bm. ret (record im { bm = bm })
