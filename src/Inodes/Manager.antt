-- ===== src/Inodes/Manager.antt =====
-- The operations of `class inode_manager` of inode_manager.cc, in the order of that file.
use naive_file_system.Prelude.{
  ℕ, zero, suc, ◌+◌, ◌-◌, ◌*◌, ◌/◌, ◌%◌, ◌^◌, Bool, ◌||◌, Option, none, some, List, [], ◌∷◌, ltb,
  leb, ◌==◌, if◌then◌else◌, get_or,
}
use naive_file_system.Outcome.{Outcome, ret, exits, undefined, ◌>>=◌}
use naive_file_system.Disk.{Block, read_block, block_size}
use naive_file_system.Blocks.{
  BlockManager, inode_num, iblock, new_block_manager, alloc_block, free_block, load_block,
  store_block,
}
use naive_file_system.Inodes.{
  Inode, Times, ndirect, nindirect, t_dir, u32, get_u32, byte_of, load_inode, save_inode,
}

pub record InodeManager : Type 0 where
  pub next_inum : ℕ
  pub bm : BlockManager

-- The block of inode `inum`.
abbrev pub inode_block : BlockManager → ℕ → ℕ
inode_block bm inum = iblock inum bm.sb.nblocks

-- `get_inode`; `none` is the null pointer.
unfoldable pub get_inode : BlockManager → ℕ → Outcome (Option Inode)
get_inode bm inum =
    if leb inum 0 || ltb inode_num inum
    then ret none
    else load_block bm (inode_block bm inum) >>= λ buf. ret (some (load_inode buf))

-- A field of `*ino` is read or written: a null pointer is not followed.
abbrev pub deref : Option Inode → Outcome Inode
deref none = undefined
deref (some ino) = ret ino

abbrev pub rewrite_block : BlockManager → ℕ → (Block → Block) → Option Block → BlockManager
rewrite_block bm id change none = bm
rewrite_block bm id change (some buf) = store_block bm id (change buf)

-- A block is read into a local array, changed there and written back. Where `id` is no block,
-- nothing is read and nothing is written.
unfoldable pub modify_block : BlockManager → ℕ → (Block → Block) → BlockManager
modify_block bm id change = rewrite_block bm id change (read_block bm.d id none)

-- `put_inode`.
unfoldable pub put_inode : BlockManager → ℕ → Inode → BlockManager
put_inode bm inum ino = modify_block bm (inode_block bm inum) (save_inode ino)

-- `inode_manager::inode_manager`. `unset` is what the constructor of `block_manager` reads too
-- early, and `stack` is what the array of the root's block numbers holds, which nothing sets.
unfoldable pub new_inode_manager : ℕ → (ℕ → ℕ) → Times → InodeManager
unfolding put_inode
new_inode_manager unset stack t = record {
  next_inum = 2;
  bm = put_inode (new_block_manager unset) 1 (record {
    type = t_dir;
    size = 0;
    atime = u32 t.a;
    mtime = u32 t.m;
    ctime = u32 t.c;
    blocks = stack;
  });
}

-- A loop of `alloc_inode` from `hover`, with `rounds` rounds to go; `none` is its normal end.
unfoldable pub find_inode : ℕ → ℕ → BlockManager → Outcome (Option (ℕ × Inode))
find_inode zero hover bm = ret none
find_inode (suc rounds) hover bm =
    let rest = find_inode rounds (hover + 1) bm in
    get_inode bm hover >>= deref >>= λ ino. if ino.type == 0 then ret (some (hover, ino)) else rest

-- The code at the label `found`.
unfoldable pub claim_inode : ℕ → Times → InodeManager → ℕ × Inode → ℕ × InodeManager
claim_inode type t m (hover, ino) = (
  hover,
  record {
    next_inum = if ltb inode_num (hover + 1) then 2 else hover + 1;
    bm = put_inode m.bm hover (record ino {
      type = type % 2 ^ 16;
      size = 0;
      atime = u32 t.a;
      mtime = u32 t.m;
      ctime = u32 t.c;
    });
  },
)

abbrev pub second_loop : ℕ → Times → InodeManager → Option (ℕ × Inode) → Outcome (ℕ × InodeManager)
second_loop type t m (some found) = ret (claim_inode type t m found)
second_loop type t m none = exits

abbrev pub first_loop : ℕ → Times → InodeManager → Option (ℕ × Inode) → Outcome (ℕ × InodeManager)
first_loop type t m (some found) = ret (claim_inode type t m found)
first_loop type t m none = find_inode (m.next_inum - 2) 2 m.bm >>= second_loop type t m

-- `alloc_inode`: the inodes from `next_inum` on, then those from 2 on, then `exit(0)`.
unfoldable pub alloc_inode : ℕ → Times → InodeManager → Outcome (ℕ × InodeManager)
alloc_inode type t m =
    find_inode (inode_num + 1 - m.next_inum) m.next_inum m.bm >>= first_loop type t m

abbrev pub clear_type : BlockManager → ℕ → Option Inode → Outcome BlockManager
clear_type bm inum none = exits
clear_type bm inum (some ino) =
    if ino.type == 0 then exits else ret (put_inode bm inum (record ino { type = 0 }))

-- `free_inode`.
unfoldable pub free_inode : BlockManager → ℕ → Outcome BlockManager
free_inode bm inum = get_inode bm inum >>= clear_type bm inum

-- `((blockid_t *) inblock)[i]`, an array of `nindirect` elements.
unfoldable pub get_entry : Block → ℕ → Outcome ℕ
get_entry b i = if ltb i nindirect then ret (get_u32 b (4 * i)) else undefined

-- `((blockid_t *) inblock)[i] = id`: what the buffer holds afterwards.
unfoldable pub set_entry : ℕ → ℕ → Block → Block
set_entry i id b k = if k / 4 == i then byte_of id (k % 4) else b k

-- `get_nth_block`.
unfoldable pub get_nth_block : BlockManager → Inode → ℕ → Outcome ℕ
get_nth_block bm ino nth =
    if ltb nth ndirect
    then ret (ino.blocks nth)
    else load_block bm (ino.blocks ndirect) >>= λ inblock. get_entry inblock (nth - ndirect)

-- `ino->blocks[nth] = id`.
abbrev pub set_pointer : Inode → ℕ → ℕ → Inode
set_pointer ino nth id = record ino { blocks = λ i. if i == nth then id else ino.blocks i }

-- `buf.data()`, for a string of `block_size` bytes.
unfoldable pub to_block : List ℕ → Block
to_block s k = get_or s k 0

-- The number `id` of a new block is put in its place, in `ino` or in the indirect block.
unfoldable pub set_nth_block : BlockManager → Inode → ℕ → ℕ → Outcome (BlockManager × Inode)
unfolding modify_block set_entry
set_nth_block bm ino nth id =
    if ltb nth ndirect
    then ret (bm, set_pointer ino nth id)
    else if ltb (nth - ndirect) nindirect
    then ret (modify_block bm (ino.blocks ndirect) (set_entry (nth - ndirect) id), ino)
    else undefined

-- `alloc_nth_block`.
unfoldable pub alloc_nth_block :
    BlockManager → Inode → ℕ → List ℕ → Bool → Outcome (BlockManager × Inode)
unfolding set_nth_block to_block
alloc_nth_block bm ino nth buf to_write = do
  (id, bm') ← alloc_block bm
  set_nth_block (if to_write then store_block bm' id (to_block buf) else bm') ino nth id

-- `free_nth_block`.
unfoldable pub free_nth_block : BlockManager → Inode → ℕ → Outcome BlockManager
free_nth_block bm ino nth = get_nth_block bm ino nth >>= λ id. ret (free_block bm id)

-- The first `n` bytes of an array as a string.
unfoldable pub to_list : ℕ → Block → List ℕ
to_list zero b = []
to_list (suc n) b = b 0 ∷ to_list n (λ k. b (k + 1))

-- `read_nth_block`: the string that `buf` is assigned.
unfoldable pub read_nth_block : BlockManager → Inode → ℕ → Outcome (List ℕ)
unfolding to_list
read_nth_block bm ino nth = get_nth_block bm ino nth >>= λ id.
    load_block bm id >>= λ content. ret (to_list block_size content)

-- `write_nth_block`.
unfoldable pub write_nth_block : BlockManager → Inode → ℕ → List ℕ → Outcome BlockManager
unfolding to_block
write_nth_block bm ino nth buf =
    get_nth_block bm ino nth >>= λ id. ret (store_block bm id (to_block buf))

-- `size == 0 ? 0 : ((size - 1) / BLOCK_SIZE + 1)`.
abbrev pub block_count : ℕ → ℕ
block_count size = if size == 0 then 0 else (size - 1) / block_size + 1
