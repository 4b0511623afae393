-- ===== src/Stack.antt =====
-- The file system as one: the handlers of fuse.cc on yfs_client.cc, over extent_client_cache.cc and
-- the calls of extent_server.cc, down to the disk of inode_manager.cc. Other clients stand behind the
-- locks.
use naive_file_system.Prelude.{
  ℕ, ◌+◌, ◌*◌, ◌<◌, ◌≤◌, ◌^◌, ◌≡◌, sym, subst, Option, some, List, length,
}
use naive_file_system.Outcome.{Outcome, ret}
use naive_file_system.Disk.{block_size}
use naive_file_system.Blocks.Free.{free_count}
use naive_file_system.Inodes.{ndirect}
use naive_file_system.Inodes.Files.{Attr}
use naive_file_system.Inodes.Manager.{InodeManager, block_count}
use naive_file_system.Extent.Calls.{Server, serving, contents, CanCreate, RoomIn}
use naive_file_system.Extent.Creating.{serving_implements}
use naive_file_system.ExtentCache.{Status, Rpc}
use naive_file_system.YfsClient.Operations.{Extents}
use naive_file_system.YfsClient.Bytes.{longer_of}
use naive_file_system.YfsClient.Holds.{Holds, HasTypes}
use naive_file_system.YfsClient.Caching.{
  World, Locks, caching, caching_implements, seen, IsGood, type_of, HasSpace, Fits,
}
use naive_file_system.Fuse.Handlers.{fuseserver_read, fuseserver_write}
use naive_file_system.Fuse.Replies.{reply_buf, reply_write}
use naive_file_system.Fuse.RoundTrips.{read-write}

module _ (lost : Status) (removing : ℕ → Server → Status × ℕ × Server) (unset : Attr) where
  abbrev calls : Rpc Server
  calls = serving lost removing

  abbrev pub OnDisk : (ℕ → World Server → World Server) → (ℕ → World Server → World Server) → Type 0
  OnDisk acquire release =
      Locks calls unset contents CanCreate (serving_implements lost removing).0
        (serving_implements lost removing).1 acquire release

  abbrev pub seen_in : World Server → ℕ → Option (List ℕ)
  seen_in =
      seen calls unset contents CanCreate (serving_implements lost removing).0
        (serving_implements lost removing).1

  abbrev pub IsSound : World Server → Type 0
  IsSound =
      IsGood calls unset contents CanCreate (serving_implements lost removing).0
        (serving_implements lost removing).1

  abbrev types_in : World Server → ℕ → ℕ
  types_in =
      type_of calls unset contents CanCreate (serving_implements lost removing).0
        (serving_implements lost removing).1

  abbrev HasSpaceIn : ℕ → World Server → Type 0
  HasSpaceIn =
      HasSpace calls unset contents CanCreate (serving_implements lost removing).0
        (serving_implements lost removing).1

  abbrev FitsIn : World Server → ℕ → Type 0
  FitsIn =
      Fits calls unset contents CanCreate (serving_implements lost removing).0
        (serving_implements lost removing).1

  -- The free blocks of the disk are room for a file that its direct blocks hold.
  pub room_fits :
      (w : World Server) (im : InodeManager) (n : ℕ)
      → w.client.server.state ≡ ret im
      → n ≤ block_size * ndirect
      → block_count n ≤ free_count im.bm
      → FitsIn w n
  room_fits w im n e short room j d l =
      subst (λ (s : Outcome InodeManager). RoomIn s d) (sym e)
        (subst (λ k. (k ≤ block_size * ndirect) × (block_count k ≤ free_count im.bm)) (sym l)
          (short, room))

  module _ (acquire release : ℕ → World Server → World Server)
      (locks : OnDisk acquire release) where
    abbrev pub client : Extents (World Server)
    client = caching calls unset acquire release

    stack :
        Holds seen_in IsSound client types_in HasSpaceIn FitsIn
        × HasTypes seen_in IsSound client types_in HasSpaceIn
    stack =
        caching_implements calls unset contents CanCreate (serving_implements lost removing).0
          (serving_implements lost removing).1 acquire release locks

    -- Over an extent server and its disk, with locks that keep other clients away and however calls
    -- that get no answer end: a `write` of `size` bytes to a file that is seen, whose end is below
    -- 2 ^ 64 and whose new length fits into the direct blocks and the free blocks of the disk, and
    -- a `read` of the same part after it reply with the size and with just these bytes.
    pub disk_round_trip :
        (unset_ino ino size off : ℕ) (bytes old : List ℕ) (w : World Server) (im : InodeManager)
        → length bytes ≡ size
        → off + size < 2 ^ 64
        → seen_in w ino ≡ some old
        → w.client.server.state ≡ ret im
        → longer_of (length old) (off + size) ≤ block_size * ndirect
        → block_count (longer_of (length old) (off + size)) ≤ free_count im.bm
        → IsSound w
        → let a = fuseserver_write client unset unset_ino ino bytes size off w in
          let r = fuseserver_read client unset unset_ino ino size off a.1 in
          (a.0 ≡ reply_write size) × (r.0 ≡ reply_buf bytes)
    disk_round_trip unset_ino ino size off bytes old w im le fits v e short room good =
        let r =
          read-write client unset unset_ino seen_in IsSound types_in HasSpaceIn FitsIn stack.0
            stack.1 ino size off bytes old w le fits v (room_fits w im _ e short room) good in
        (r.0, r.1)
