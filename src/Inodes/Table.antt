-- ===== src/Inodes/Table.antt =====
-- The inode table on a formatted disk: `get_inode` and `put_inode` of inode_manager.cc as the
-- reading and the writing of an array of inodes.
use naive_file_system.Prelude.{ℕ, ◌+◌, ◌*◌, ◌≤◌, ◌<◌, ◌≡◌, sym, ap, ◌∙◌, arith, none, some, fun_ext}
use naive_file_system.Outcome.{ret}
use naive_file_system.Disk.{
  Disk, Block, block_num, block_size, write_block, read_block_legal, write_block_self,
  write_block_other,
}
use naive_file_system.Blocks.{BlockManager, inode_num, load_block, store_block}
use naive_file_system.Blocks.Alloc.{data_start, IsReady}
use naive_file_system.Inodes.{Inode, get_u16, get_u32, load_inode, save_inode}
use naive_file_system.Inodes.Codec.{Fits, load_inode-save_inode, load_inode-Fits}
use naive_file_system.Inodes.Manager.{
  get_inode, put_inode, modify_block, rewrite_block, inode_block,
}

abbrev pub IsInum : ℕ → Type 0
IsInum i = (1 ≤ i) × (i ≤ inode_num)

-- The inode with number `i`, as the disk holds it.
unfoldable pub inode_at : Disk → ℕ → Inode
inode_at d i = load_inode (d.blocks (11 + i))

inode_block_eq : (bm : BlockManager) (i : ℕ) → IsReady bm → inode_block bm i ≡ 11 + i
inode_block_eq bm i ready = omega (arith, ready.formatted)

pub load_block_legal :
    (bm : BlockManager) (id : ℕ) → id < block_num → load_block bm id ≡ ret (bm.d.blocks id)
unfolding load_block
load_block_legal bm id h = rw (read_block_legal bm.d id none h)

pub get_inode_at :
    (bm : BlockManager) (i : ℕ)
    → IsReady bm
    → IsInum i
    → get_inode bm i ≡ ret (some (inode_at bm.d i))
unfolding get_inode inode_at
get_inode_at bm i ready h =
    let e = inode_block_eq bm i ready in
    rw (sym e) (ground (arith, load_block_legal bm (inode_block bm i) (omega arith)))

get_u32_congr :
    (b b' : Block) (k : ℕ)
    → k + 3 < block_size
    → ((i : ℕ) → i < block_size → b i ≡ b' i)
    → get_u32 b k ≡ get_u32 b' k
unfolding get_u32
get_u32_congr b b' k h same = omega (arith, same k, same (k + 1), same (k + 2), same (k + 3))

load_inode_congr :
    (b b' : Block) → ((i : ℕ) → i < block_size → b i ≡ b' i) → load_inode b ≡ load_inode b'
unfolding load_inode
load_inode_congr b b' same = λ i. record {
  type = type i;
  size = get_u32_congr b b' 4 (omega arith) same i;
  atime = get_u32_congr b b' 8 (omega arith) same i;
  mtime = get_u32_congr b b' 12 (omega arith) same i;
  ctime = get_u32_congr b b' 16 (omega arith) same i;
  blocks = fun_ext blocks i;
}
  where
    type : get_u16 b 0 ≡ get_u16 b' 0
    type = unfold get_u16 in omega (arith, same 0, same 1)

    blocks : (n : ℕ) → (load_inode b).blocks n ≡ (load_inode b').blocks n
    blocks n = ground (arith, λ (h : n < 101). get_u32_congr b b' (20 + 4 * n) (omega arith) same)

-- What `put_inode` does to the disk.
unfoldable pub put_at : Disk → ℕ → Inode → Disk
put_at d i ino = write_block d (11 + i) (save_inode ino (d.blocks (11 + i)))

pub put_inode-eq-put_at :
    (bm : BlockManager) (i : ℕ) (ino : Inode)
    → IsReady bm
    → IsInum i
    → put_inode bm i ino ≡ record bm { d = put_at bm.d i ino }
unfolding put_inode modify_block put_at store_block
put_inode-eq-put_at bm i ino ready h =
    let e = inode_block_eq bm i ready in
    rw (sym e) (rw (read_block_legal bm.d (inode_block bm i) none (omega arith), rewrite_block))

pub inode_at-put_at_self :
    (d : Disk) (i : ℕ) (ino : Inode) → IsInum i → Fits ino → inode_at (put_at d i ino) i ≡ ino
unfolding inode_at put_at
inode_at-put_at_self d i ino h fits =
    load_inode_congr _ _ (λ k lt. write_block_self d (11 + i) k _ (omega arith) lt)
    ∙ load_inode-save_inode ino (d.blocks (11 + i)) fits

pub inode_at-put_at_other :
    (d : Disk) (i j : ℕ) (ino : Inode) → ¬ (j ≡ i) → inode_at (put_at d i ino) j ≡ inode_at d j
unfolding inode_at put_at
inode_at-put_at_other d i j ino ne =
    ap load_inode (write_block_other d (11 + i) (11 + j) _ (λ e. ne (omega arith)))

pub put_at_data :
    (d : Disk) (i b : ℕ) (ino : Inode)
    → IsInum i
    → data_start ≤ b
    → (put_at d i ino).blocks b ≡ d.blocks b
unfolding put_at
put_at_data d i b ino h lo = write_block_other d (11 + i) b _ (λ e. omega arith)

pub inode_at-Fits : (d : Disk) (i : ℕ) → Fits (inode_at d i)
unfolding inode_at
inode_at-Fits d i = load_inode-Fits (d.blocks (11 + i))
