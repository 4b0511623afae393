-- ===== src/Blocks.antt =====
-- The block layer: `class block_manager` of inode_manager.h and inode_manager.cc.
pub mod Alloc
pub mod Free
use naive_file_system.Prelude.{
  ℕ, zero, suc, ◌+◌, ◌-◌, ◌*◌, ◌/◌, Option, none, some, ltb, ◌==◌, if◌then◌else◌,
}
use naive_file_system.Outcome.{Outcome, ret, exits, undefined, ◌>>=◌}
use naive_file_system.Disk.{Disk, Block, block_size, block_num, new_disk, read_block, write_block}

abbrev pub inode_num : ℕ
inode_num = 1024

-- IPB, BPB and `IBLOCK(i, nblocks)`.
abbrev pub ipb : ℕ
ipb = 1

abbrev pub bpb : ℕ
bpb = block_size * 8

abbrev pub iblock : ℕ → ℕ → ℕ
iblock i nblocks = nblocks / bpb + i / ipb + 3

pub record Superblock : Type 0 where
  pub size : ℕ
  pub nblocks : ℕ
  pub ninodes : ℕ

-- The map `using_blocks` is read by `operator[]` alone, which gives 0 for a key that is not there.
pub record BlockManager : Type 0 where
  pub next_block : ℕ
  pub d : Disk
  pub using_blocks : ℕ → ℕ
  pub sb : Superblock

-- `block_manager::block_manager`. The constructor reads `sb.nblocks` before it sets it: `unset` is
-- what that field holds then.
unfoldable pub new_block_manager : ℕ → BlockManager
new_block_manager unset = record {
  next_block = iblock inode_num unset + 1;
  d = new_disk;
  using_blocks = λ id. 0;
  sb = record { size = block_size * block_num; nblocks = block_num; ninodes = inode_num };
}

-- `using_blocks[id] = v`.
unfoldable pub set_using : (ℕ → ℕ) → ℕ → ℕ → ℕ → ℕ
set_using m id v j = if j == id then v else m j

-- The loop of `find_fit_block`, with `rounds` rounds to go from `hover`; `none` is -1.
unfoldable pub find_fit_from : ℕ → ℕ → ℕ → BlockManager → Option ℕ × BlockManager
unfolding set_using
find_fit_from zero hover start bm = (none, bm)
find_fit_from (suc rounds) hover start bm =
    let rest = find_fit_from rounds (hover + 1) start bm in
    if bm.using_blocks hover == 0
    then (
      some hover,
      record bm {
        using_blocks = set_using bm.using_blocks hover 1;
        next_block = if hover + 1 == block_num then start else hover + 1;
      },
    )
    else rest

unfoldable pub find_fit_block : ℕ → ℕ → ℕ → BlockManager → Option ℕ × BlockManager
unfolding find_fit_from
find_fit_block begin end start bm = find_fit_from (end - begin) begin start bm

abbrev pub second_fit : Option ℕ × BlockManager → Outcome (ℕ × BlockManager)
second_fit (some res, bm) = ret (res, bm)
second_fit (none, bm) = exits

abbrev pub first_fit : ℕ → Option ℕ × BlockManager → Outcome (ℕ × BlockManager)
first_fit start (some res, bm) = ret (res, bm)
first_fit start (none, bm) = second_fit (find_fit_block start bm.next_block start bm)

-- `block_manager::alloc_block`: next fit, then first fit, then `exit(0)`.
unfoldable pub alloc_block : BlockManager → Outcome (ℕ × BlockManager)
unfolding find_fit_block
alloc_block bm =
    let start = iblock inode_num bm.sb.nblocks + 1 in
    first_fit start (find_fit_block bm.next_block block_num start bm)

-- `block_manager::free_block`.
unfoldable pub free_block : BlockManager → ℕ → BlockManager
unfolding set_using
free_block bm id = record bm { using_blocks = set_using bm.using_blocks id 0 }

abbrev pub is_set : Option Block → Outcome Block
is_set none = undefined
is_set (some buf) = ret buf

-- `block_manager::read_block` into a local array that nothing has set, whose contents are used.
unfoldable pub load_block : BlockManager → ℕ → Outcome Block
unfolding read_block
load_block bm id = is_set (read_block bm.d id none)

-- `block_manager::write_block`.
unfoldable pub store_block : BlockManager → ℕ → Block → BlockManager
unfolding write_block
store_block bm id buf = record bm { d = write_block bm.d id buf }
