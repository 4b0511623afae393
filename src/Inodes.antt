-- ===== src/Inodes.antt =====
-- The inode layer: `struct inode` and `class inode_manager` of inode_manager.h and
-- inode_manager.cc. A struct stands in its block in the layout of the x86-64 ABI: `type` in bytes
-- 0 and 1, two bytes of padding, `size`, `atime`, `mtime`, `ctime` and then the block numbers in
-- four bytes each, the lowest byte first.
pub mod Codec
pub mod Manager
pub mod Files
pub mod Table
pub mod Content
pub mod Writing
pub mod Holding
pub mod Valid
pub mod Commit
pub mod Write
pub mod Read
pub mod Lifetime
pub mod Removal
pub mod Format
pub mod Indirect
pub mod Limit
use naive_file_system.Prelude.{
  ℕ, zero, suc, ◌+◌, ◌-◌, ◌*◌, ◌/◌, ◌%◌, ◌^◌, Bool, true, false, ◌||◌, Option, none, some, List, [],
  ◌∷◌, ◌++◌, ltb, leb, ◌==◌, if◌then◌else◌, length, get_or, take, drop, replicate,
}
use naive_file_system.Outcome.{Outcome, ret, exits, undefined, ◌>>=◌}
use naive_file_system.Disk.{Block, block_size, block_num}
use naive_file_system.Blocks.{
  BlockManager, inode_num, iblock, new_block_manager, alloc_block, free_block, load_block,
  store_block,
}

abbrev pub ndirect : ℕ
ndirect = 100

-- NINDIRECT, `block_size / sizeof(uint)`.
abbrev pub nindirect : ℕ
nindirect = 128

abbrev pub maxfile : ℕ
maxfile = ndirect + nindirect

-- `enum types` of extent_protocol.h.
abbrev pub t_dir : ℕ
t_dir = 1

abbrev pub t_file : ℕ
t_file = 2

abbrev pub t_symlk : ℕ
t_symlk = 3

-- The 16 bits of `type` are kept as a number below 2 ^ 16. `blocks` is the array of
-- `ndirect + 1` block numbers; it is 0 at other indices, which the code does not read.
pub record Inode : Type 0 where
  pub type : ℕ
  pub size : ℕ
  pub atime : ℕ
  pub mtime : ℕ
  pub ctime : ℕ
  pub blocks : ℕ → ℕ

-- What the calls of `std::time(0)` return that an operation makes for the three times.
pub record Times : Type 0 where
  pub a : ℕ
  pub m : ℕ
  pub c : ℕ

-- The cast to `unsigned`.
abbrev pub u32 : ℕ → ℕ
u32 n = n % 2 ^ 32

-- Little-endian words in a buffer of bytes.
unfoldable pub get_u16 : Block → ℕ → ℕ
get_u16 b k = b k % 256 + 256 * (b (k + 1) % 256)

unfoldable pub get_u32 : Block → ℕ → ℕ
get_u32 b k =
    b k % 256 + 256 * (b (k + 1) % 256) + 65536 * (b (k + 2) % 256) + 16777216 * (b (k + 3) % 256)

-- The byte of `v` with index `i`, from the lowest.
unfoldable pub byte_of : ℕ → ℕ → ℕ
byte_of v zero = v % 256
byte_of v (suc i) = byte_of (v / 256) i

-- `*ino = *ino_disk`
unfoldable pub load_inode : Block → Inode
unfolding get_u16 get_u32
load_inode b = record {
  type = get_u16 b 0;
  size = get_u32 b 4;
  atime = get_u32 b 8;
  mtime = get_u32 b 12;
  ctime = get_u32 b 16;
  blocks = λ i. if ltb i (ndirect + 1) then get_u32 b (20 + 4 * i) else 0;
}

-- The word with index `w` after the first four bytes.
unfoldable pub inode_word : Inode → ℕ → ℕ
inode_word ino zero = ino.size
inode_word ino (suc zero) = ino.atime
inode_word ino (suc (suc zero)) = ino.mtime
inode_word ino (suc (suc (suc zero))) = ino.ctime
inode_word ino (suc (suc (suc (suc i)))) = ino.blocks i

-- `*ino_disk = *ino`: what the buffer holds afterwards.
unfoldable pub save_inode : Inode → Block → Block
unfolding byte_of inode_word
save_inode ino b k =
    if ltb k 2
    then byte_of ino.type k
    else if ltb k 4 || leb 424 k
    then b k
    else byte_of (inode_word ino ((k - 4) / 4)) (k % 4)
