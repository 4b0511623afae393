-- ===== src/ExtentClient.antt =====
-- `class extent_client` of extent_client.cc, which calls the extent server for each operation. The
-- calls are those of the RPC library; its `remove` hands over an argument for the reply, which that
-- of the caching client does not, so that it is a call of its own.
pub mod Transparent
use naive_file_system.Prelude.{ℕ, List}
use naive_file_system.ExtentCache.{Status, Rpc, replied}
use naive_file_system.Inodes.Files.{Attr}

module _ {S : Type 0} (rpc : Rpc S) (call_remove : ℕ → S → Status × ℕ × S) where
  unfoldable pub create : ℕ → ℕ → S → Status × ℕ × S
  create type id s = let r = rpc.call_create type s in (r.0, replied r.1 id, r.2)

  unfoldable pub get : ℕ → List ℕ → S → Status × List ℕ × S
  get eid buf s = let r = rpc.call_get eid s in (r.0, replied r.1 buf, r.2)

  unfoldable pub getattr : ℕ → Attr → S → Status × Attr × S
  getattr eid attr s = let r = rpc.call_getattr eid s in (r.0, replied r.1 attr, r.2)

  unfoldable pub put : ℕ → List ℕ → S → Status × S
  put eid buf s = rpc.call_put eid buf s

  unfoldable pub remove : ℕ → S → Status × S
  remove eid s = let r = call_remove eid s in (r.0, r.2)
