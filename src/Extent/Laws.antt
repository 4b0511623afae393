-- ===== src/Extent/Laws.antt =====
-- The extent server of extent_server.cc as a store of files by number.
use naive_file_system.Prelude.{
  length-take, ℕ, ◌*◌, ◌%◌, ◌^◌, ◌≤◌, ◌<◌, ◌≡◌, ◌≢◌, sym, ap, ◌∙◌, arith, Option, none, some, List,
  length, ◌==◌, Bool-cases, inl, inr,
}
use naive_file_system.Outcome.{◌>>=◌, Returns}
use naive_file_system.Disk.{Disk, block_size}
use naive_file_system.Blocks.Free.{free_count}
use naive_file_system.Inodes.{Inode, Times, ndirect}
use naive_file_system.Inodes.Manager.{InodeManager, block_count}
use naive_file_system.Inodes.Files.{fill_attr, getattr as inode_getattr}
use naive_file_system.Inodes.Table.{IsInum, inode_at, get_inode_at}
use naive_file_system.Inodes.Content.{content, blocks_from, length-blocks_from}
use naive_file_system.Inodes.Valid.{IsLive, File, file_at}
use naive_file_system.Inodes.Write.{write_file-Writes}
use naive_file_system.Inodes.Read.{read_file-Reads}
use naive_file_system.Inodes.Lifetime.{IsManaged}
use naive_file_system.Inodes.Removal.{remove_file-Removes}
use naive_file_system.Extent.{masked, put, get, remove, getattr, no_attr}

-- The file that the server keeps under `id`, if any.
abbrev pub stored : InodeManager → ℕ → Option File
stored im id = file_at im.bm.d (masked id)

-- The numbers that name an inode after masking.
abbrev pub IsId : ℕ → Type 0
IsId id = IsInum (masked id)

-- A file that is stored is a live inode with its content.
pub stored-IsLive :
    (d : Disk) (i : ℕ) (f : File)
    → IsInum i
    → file_at d i ≡ some f
    → IsLive d i × (content d (inode_at d i) ≡ f.bytes) × ((inode_at d i).type ≡ f.kind)
unfolding file_at
stored-IsLive d i f h e = elim (Bool-cases ((inode_at d i).type == 0)) [
  | inl dead ↦ absurd (ground arith)
  | inr live ↦ ((h, ground arith), ground arith, ground arith)
]

-- Reading a stored file answers its bytes, and every file stays as it is.
pub get-stored :
    (im : InodeManager) (id : ℕ) (t : Times) (f : File)
    → IsManaged im
    → IsId id
    → stored im id ≡ some f
    → Returns (get id t im) λ r.
      (r.0 ≡ f.bytes)
      × IsManaged r.1
      × ((j : ℕ) → IsId j → stored r.1 j ≡ stored im j)
      × (r.1.bm.using_blocks ≡ im.bm.using_blocks)
unfolding get
get-stored im id t f h hid e =
    let (live, bytes, kind) = stored-IsLive im.bm.d (masked id) f hid e in
    let (r, run, p) = read_file-Reads im.bm (masked id) t h.blocks live in
    (
      (content im.bm.d (inode_at im.bm.d (masked id)), record im { bm = r.1 }),
      rw run (rw p.bytes),
      (
        bytes,
        record { blocks = p.valid; cursor = h.cursor },
        (λ j hj. p.files (masked j) hj),
        p.blocks,
      ),
    )

-- Writing a stored file of at most 100 blocks, with room on the disk, replaces its bytes, keeps
-- its type and keeps every other file.
pub put-stored :
    (im : InodeManager) (id : ℕ) (buf : List ℕ) (t : Times) (f : File)
    → IsManaged im
    → IsId id
    → stored im id ≡ some f
    → length buf ≤ block_size * ndirect
    → block_count (length buf) ≤ free_count im.bm
    → Returns (put id buf t im) λ im'.
      IsManaged im'
      × (stored im' id ≡ some (record f { bytes = buf }))
      × ((j : ℕ) → IsId j → masked j ≢ masked id → stored im' j ≡ stored im j)
unfolding put
put-stored im id buf t f h hid e short room =
    let (live, bytes, kind) = stored-IsLive im.bm.d (masked id) f hid e in
    let (bm', run, p) =
      write_file-Writes im.bm (masked id) buf t h.blocks live short (omega arith) in
    let size : length buf % 2 ^ 32 ≡ length buf = omega arith in
    (
      record im { bm = bm' },
      rw size (rw run),
      (
        record { blocks = p.valid; cursor = h.cursor },
        p.file ∙ ap (λ k. some (record f { kind = k; bytes = buf })) kind,
        λ j hj ne. p.others (masked j) hj ne,
      ),
    )

-- What was put is what is got.
pub get-put :
    (im : InodeManager) (id : ℕ) (buf : List ℕ) (t t' : Times) (f : File)
    → IsManaged im
    → IsId id
    → stored im id ≡ some f
    → length buf ≤ block_size * ndirect
    → block_count (length buf) ≤ free_count im.bm
    → Returns (put id buf t im >>= get id t') λ r. r.0 ≡ buf
get-put im id buf t t' f h hid e short room =
    let (im', run, (h', e', others)) = put-stored im id buf t f h hid e short room in
    let (r, run', (bytes, managed, files, blocks)) =
      get-stored im' id t' (record f { bytes = buf }) h' hid e' in
    (r, rw run run', bytes)

pub length-content : (d : Disk) (ino : Inode) → length (content d ino) ≡ ino.size
unfolding content
length-content d ino =
    let whole = length-blocks_from (block_count ino.size) 0 d ino in
    length-take ino.size (blocks_from (block_count ino.size) 0 d ino) ∙ ground arith

-- On a sound disk, `getattr` answers the type and the size of a stored file whose type is below
-- 2 ^ 15.
pub getattr-stored :
    (im : InodeManager) (id : ℕ) (f : File)
    → IsManaged im
    → IsId id
    → stored im id ≡ some f
    → f.kind < 2 ^ 15
    → Returns (getattr id im) λ a. (a.type ≡ f.kind) × (a.size ≡ length f.bytes)
unfolding getattr inode_getattr
getattr-stored im id f h hid e small =
    let (live, bytes, kind) = stored-IsLive im.bm.d (masked id) f hid e in
    let ino = inode_at im.bm.d (masked id) in
    (
      fill_attr no_attr (some ino),
      rw (get_inode_at im.bm (masked id) h.blocks.ready hid),
      (ground arith, sym (length-content im.bm.d ino) ∙ ap length bytes),
    )

-- A removed file is gone, and every other file stays as it is.
pub remove-stored :
    (im : InodeManager) (id : ℕ) (f : File)
    → IsManaged im
    → IsId id
    → stored im id ≡ some f
    → Returns (remove id im) λ im'.
      IsManaged im'
      × (stored im' id ≡ none)
      × ((j : ℕ) → IsId j → masked j ≢ masked id → stored im' j ≡ stored im j)
unfolding remove
remove-stored im id f h hid e =
    let (live, bytes, kind) = stored-IsLive im.bm.d (masked id) f hid e in
    let (bm', run, p) = remove_file-Removes im.bm (masked id) h.blocks live in
    (
      record im { bm = bm' },
      rw run,
      (
        record { blocks = p.valid; cursor = h.cursor },
        p.gone,
        λ j hj ne. p.others (masked j) hj ne,
      ),
    )
