-- ===== src/YfsClient/Durable.antt =====
-- `write` of yfs_client.cc over extent_client_cache.cc brings the bytes to the server.
use naive_file_system.Prelude.{ℕ, ◌+◌, ◌<◌, ◌^◌, ◌≡◌, sym, ◌∙◌, none, some, List, [], length}
use naive_file_system.Inodes.Files.{Attr}
use naive_file_system.ExtentCache.{Rpc}
use naive_file_system.ExtentCache.View.{Contents, Serves, view_at}
use naive_file_system.ExtentCache.Create.{Creates}
use naive_file_system.ExtentCache.Flush.{flush-erases}
use naive_file_system.YfsClient.Operations.{write}
use naive_file_system.YfsClient.Bytes.{Overwrites, longer_of, written-Overwrites}
use naive_file_system.YfsClient.Content.{write-Overwrites}
use naive_file_system.YfsClient.Holds.{Sets-seen, some_ne}
use naive_file_system.YfsClient.Caching.{
  World, Locks, caching, caching_implements, seen, IsGood, type_of, HasSpace, Fits,
}

module _ {S : Type 0} (rpc : Rpc S) (unset : Attr) (held : Contents S) (HasRoom : ℕ → S → Type 0)
    (serves : Serves rpc held) (creates : Creates rpc held HasRoom)
    (acquire release : ℕ → World S → World S)
    (locks : Locks rpc unset held HasRoom serves creates acquire release) where
  -- `write` flushes the file before it returns.
  write-erases :
      (ino size off : ℕ) (bytes old : List ℕ) (w : World S)
      → ((id j : ℕ) (u : World S) → u.client.table j ≡ none → (release id u).client.table j ≡ none)
      → length bytes ≡ size
      → off + size < 2 ^ 64
      → seen rpc unset held HasRoom serves creates w ino ≡ some old
      → IsGood rpc unset held HasRoom serves creates w
      → (write (caching rpc unset acquire release) unset ino size off bytes w).1.client.table ino
        ≡ none
  unfolding write caching
  write-erases ino size off bytes old w empties le fits v good =
      let x = caching rpc unset acquire release in
      let holds =
        (caching_implements rpc unset held HasRoom serves creates acquire release locks).0 in
      let l = holds.acquire_keeps ino w good in
      let a = acquire ino w in
      let g = holds.get_ok ino [] old a (l.0 ino ∙ v) l.1 in
      let s = (x.ec_get ino [] a).2 in
      let n = written-Overwrites size off bytes old le fits in
      let put = holds.put_ok ino n.0 s (some_ne (g.1.0 ino ∙ l.0 ino ∙ v)) g.1.1 in
      let p = (x.ec_put ino n.0 s).1 in
      let there =
        Sets-seen (seen rpc unset held HasRoom serves creates)
          (IsGood rpc unset held HasRoom serves creates) ino n.0 s p put in
      rw g.0 (
        rw n.1
          (empties ino ino _ (flush-erases rpc unset held serves ino p.client (some_ne there))))

  -- Over a server that keeps its promises, with locks that keep other clients away and whose
  -- `release` puts nothing into the cache: `write` of `size` bytes to a file that is seen, whose
  -- end is below 2 ^ 64 and for whose new length the server has room, leaves the file with its new
  -- bytes at the server itself.
  pub write-durable :
      (ino size off : ℕ) (bytes old : List ℕ) (w : World S)
      → ((id j : ℕ) (u : World S) → u.client.table j ≡ none → (release id u).client.table j ≡ none)
      → length bytes ≡ size
      → off + size < 2 ^ 64
      → seen rpc unset held HasRoom serves creates w ino ≡ some old
      → Fits rpc unset held HasRoom serves creates w (longer_of (length old) (off + size))
      → IsGood rpc unset held HasRoom serves creates w
      → let r = write (caching rpc unset acquire release) unset ino size off bytes w in
        (new : List ℕ) × Overwrites size off bytes old new
        × (r.0 ≡ some size)
        × (held.file r.1.client.server ino ≡ some new)
  write-durable ino size off bytes old w empties le fits v room good =
      let x = caching rpc unset acquire release in
      let holds =
        (caching_implements rpc unset held HasRoom serves creates acquire release locks).0 in
      let o =
        write-Overwrites x unset (seen rpc unset held HasRoom serves creates)
          (IsGood rpc unset held HasRoom serves creates)
          (type_of rpc unset held HasRoom serves creates)
          (HasSpace rpc unset held HasRoom serves creates)
          (Fits rpc unset held HasRoom serves creates) holds ino size off bytes old w le fits v room
          good in
      let erased = write-erases ino size off bytes old w empties le fits v good in
      let r = (write x unset ino size off bytes w).1 in
      (
        o.0,
        o.1,
        o.2,
        sym (view_at held r.client ino none erased)
            ∙ Sets-seen (seen rpc unset held HasRoom serves creates)
                (IsGood rpc unset held HasRoom serves creates) ino o.0 w r o.3,
      )
