-- ===== src/Tests/Files.antt =====
-- The block, inode and extent layers on a newly formatted disk.
use naive_file_system.Prelude.{
  ℕ, ◌≤◌, ◌<◌, ◌*◌, ◌≡◌, ◌≢◌, ◌⊎◌, refl, arith, some, none, List, [], ◌∷◌, false,
}
use naive_file_system.Outcome.{ret, exits, undefined, ◌>>=◌, Returns}
use naive_file_system.Blocks.{store_block, BlockManager, new_block_manager, alloc_block, inode_num}
use naive_file_system.Blocks.Alloc.{Allocates, alloc_block-Allocates}
use naive_file_system.Blocks.Free.{free_count, free_count-all, free_count-pos}
use naive_file_system.Disk.{block_size, read_block}
use naive_file_system.Inodes.{Inode, Times, maxfile, t_dir, t_file, load_inode, save_inode}
use naive_file_system.Inodes.Codec.{load_inode-save_inode}
use naive_file_system.Inodes.Manager.{
  modify_block, InodeManager, new_inode_manager, alloc_inode, get_nth_block, alloc_nth_block,
  inode_block,
}
use naive_file_system.Inodes.Files.{write_file, read_file, remove_file}
use naive_file_system.Inodes.Table.{IsInum, inode_at}
use naive_file_system.Inodes.Valid.{IsLive, IsValid, File, file_at}
use naive_file_system.Inodes.Write.{Writes, write_file-Writes}
use naive_file_system.Inodes.Read.{Reads, read_file-Reads}
use naive_file_system.Inodes.Lifetime.{IsManaged, Creates, alloc_inode-Creates}
use naive_file_system.Inodes.Removal.{Removes, remove_file-Removes}
use naive_file_system.Inodes.Format.{new_inode_manager-IsManaged, early_cursor_hits_inode}
use naive_file_system.Inodes.Indirect.{large_files_share}
use naive_file_system.Inodes.Limit.{write_file-limit}
use naive_file_system.Extent.{get, put, getattr}
use naive_file_system.Extent.Laws.{stored-IsLive, get-put, getattr-stored}

abbrev pub noon : Times
noon = record { a = 7; m = 8; c = 9 }

abbrev pub formatted : InodeManager
formatted = new_inode_manager 32768 (λ _. 0) noon

pub formatted-IsManaged :
    IsManaged formatted
    × (file_at formatted.bm.d 1 ≡ some (record { kind = t_dir; bytes = [] }))
    × ((j : ℕ) → IsInum j → j ≢ 1 → file_at formatted.bm.d j ≡ none)
    × ((b : ℕ) → formatted.bm.using_blocks b ≡ 0)
formatted-IsManaged =
    new_inode_manager-IsManaged 32768 (λ _. 0) noon (omega arith) (λ i. omega arith) (λ i h. refl)

new_inode_manager-IsManaged_example :
    IsManaged formatted
    × (file_at formatted.bm.d 1 ≡ some (record { kind = t_dir; bytes = [] }))
    × ((j : ℕ) → IsInum j → j ≢ 1 → file_at formatted.bm.d j ≡ none)
    × ((b : ℕ) → formatted.bm.using_blocks b ≡ 0)
new_inode_manager-IsManaged_example =
    new_inode_manager-IsManaged 32768 (λ _. 0) noon (omega arith) (λ i. omega arith) (λ i h. refl)

abbrev pub root_file : File
root_file = record { kind = t_dir; bytes = [] }

abbrev pub text : List ℕ
text = 104 ∷ 105 ∷ []

pub room : 0 < free_count formatted.bm
room = free_count-pos formatted.bm 1036 (omega arith) (formatted-IsManaged.3 1036)

root-IsLive : IsLive formatted.bm.d 1
root-IsLive = (stored-IsLive formatted.bm.d 1 root_file (omega arith) formatted-IsManaged.1).0

get-put_example : Returns (put 1 text noon formatted >>= get 1 noon) λ r. r.0 ≡ text
get-put_example =
    get-put formatted 1 text noon noon root_file formatted-IsManaged.0 (omega arith)
      formatted-IsManaged.1 (omega arith) room

root-attributes : Returns (getattr 1 formatted) λ a. (a.type ≡ t_dir) × (a.size ≡ 0)
root-attributes =
    getattr-stored formatted 1 root_file formatted-IsManaged.0 (omega arith) formatted-IsManaged.1
      (omega arith)

text_written : Returns (write_file formatted.bm 1 text 2 noon) (Writes formatted.bm 1 text)
text_written =
    write_file-Writes formatted.bm 1 text noon formatted-IsManaged.0.blocks root-IsLive
      (omega arith) (omega (arith, room))

write_file-Writes_example :
    Returns (write_file formatted.bm 1 text 2 noon) (Writes formatted.bm 1 text)
write_file-Writes_example =
    write_file-Writes formatted.bm 1 text noon formatted-IsManaged.0.blocks root-IsLive
      (omega arith) (omega (arith, room))

-- The disk after `text` has been written into the root.
written : BlockManager
written = text_written.0

written-IsLive : IsLive written.d 1
unfolding written
written-IsLive =
    (stored-IsLive written.d 1 (record { kind = _; bytes = text }) (omega arith)
      text_written.2.file).0

written-IsValid : IsValid written
unfolding written
written-IsValid = text_written.2.valid

read_file-Reads_example : Returns (read_file written 1 noon) (Reads written 1)
read_file-Reads_example = read_file-Reads written 1 noon written-IsValid written-IsLive

remove_file-Removes_example : Returns (remove_file written 1) (Removes written 1)
remove_file-Removes_example = remove_file-Removes written 1 written-IsValid written-IsLive

alloc_inode-Creates_example :
    ((alloc_inode t_file noon formatted ≡ exits)
      × ((i : ℕ) → 2 ≤ i → i ≤ inode_num → IsLive formatted.bm.d i))
    ⊎ Returns (alloc_inode t_file noon formatted) (Creates formatted t_file)
alloc_inode-Creates_example =
    alloc_inode-Creates formatted t_file noon formatted-IsManaged.0 (omega arith) (omega arith)

alloc_block-Allocates_example : Allocates formatted.bm
alloc_block-Allocates_example =
    alloc_block-Allocates formatted.bm formatted-IsManaged.0.blocks.ready

abbrev sample : Inode
sample = record { type = 2; size = 600; atime = 1; mtime = 2; ctime = 3; blocks = λ i. 0 }

load_inode-save_inode_example : load_inode (save_inode sample (λ k. 255)) ≡ sample
load_inode-save_inode_example =
    load_inode-save_inode sample (λ k. 255)
      (record {
        type = omega arith;
        size = omega arith;
        atime = omega arith;
        mtime = omega arith;
        ctime = omega arith;
        blocks = λ i. omega arith;
        bound = λ i h. refl;
      })

-- Another file, whose indirect block has the same number.
abbrev neighbour : Inode
neighbour = record { type = 2; size = 9; atime = 0; mtime = 0; ctime = 0; blocks = λ i. 0 }

large_files_share_example : Returns (alloc_nth_block formatted.bm sample 150 [] false) λ r.
    (id : ℕ) × (formatted.bm.using_blocks id ≡ 0)
    × (get_nth_block r.0 r.1 150 ≡ ret id)
    × (get_nth_block r.0 neighbour 150 ≡ ret id)
large_files_share_example =
    large_files_share formatted.bm sample neighbour 150 formatted-IsManaged.0.blocks.ready room
      (omega arith) refl (omega arith) (omega arith)

write_file-limit_example :
    ((200000 ≤ maxfile * block_size)
      × ((bm' : BlockManager) × (write_file formatted.bm 1 text 200000 noon ≡ ret bm')))
    ⊎ ((maxfile * block_size < 200000) × (write_file formatted.bm 1 text 200000 noon ≡ undefined))
unfolding inode_at load_inode new_inode_manager modify_block read_block new_block_manager
    store_block save_inode
write_file-limit_example =
    write_file-limit formatted.bm 1 text 200000 noon formatted-IsManaged.0.blocks root-IsLive
      (omega arith) (omega (arith, free_count-all formatted.bm formatted-IsManaged.3))

early_cursor_hits_inode_example :
    Returns (alloc_block (new_block_manager 0)) λ r. (i : ℕ) × IsInum i × (r.0 ≡ inode_block r.1 i)
early_cursor_hits_inode_example = early_cursor_hits_inode 0 (omega arith)
