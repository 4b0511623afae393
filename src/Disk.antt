-- ===== src/Disk.antt =====
-- The disk layer: `class disk` of inode_manager.h and inode_manager.cc, with the constants of the
-- layout. A block is the array `unsigned char[BLOCK_SIZE]`, read by index; no code reads or writes
-- it at an index of `block_size` or more.
use naive_file_system.Prelude.{
  ℕ, ◌*◌, ◌/◌, ◌<◌, ◌≡◌, refl, Bool, true, false, ◌||◌, Option, some, arith, ltb, leb, ◌==◌,
  if◌then◌else◌,
}

abbrev pub disk_size : ℕ
disk_size = 1024 * 1024 * 16

abbrev pub block_size : ℕ
block_size = 512

-- BLOCK_NUM, `disk_size / block_size`.
abbrev pub block_num : ℕ
block_num = 32768

block_num_lem : block_num ≡ disk_size / block_size
block_num_lem = refl

abbrev pub Block : Type 0
Block = ℕ → ℕ

pub record Disk : Type 0 where
  pub blocks : ℕ → Block

-- `disk::disk`, which clears all blocks.
unfoldable pub new_disk : Disk
new_disk = record { blocks = λ id k. 0 }

-- `memcpy(dst, src, n)`: what `dst` holds afterwards.
unfoldable pub memcpy : ℕ → Block → Block → Block
memcpy n src dst k = if ltb k n then src k else dst k

-- `is_blockrw_legal`; the second argument says whether the pointer `buf` is null.
unfoldable pub is_blockrw_legal : ℕ → Bool → Bool
is_blockrw_legal id is_null = if ltb id 0 || leb block_num id || is_null then false else true

-- `disk::read_block` into a buffer of `block_size` bytes. `none` is a buffer that is not set yet.
unfoldable pub read_block : Disk → ℕ → Option Block → Option Block
unfolding is_blockrw_legal
read_block d id buf = if is_blockrw_legal id false then some (d.blocks id) else buf

-- `disk::write_block`.
unfoldable pub write_block : Disk → ℕ → Block → Disk
unfolding is_blockrw_legal memcpy
write_block d id buf =
    if is_blockrw_legal id false
    then record {
      blocks = λ j. if j == id then memcpy block_size buf (d.blocks id) else d.blocks j;
    }
    else d

pub read_block_legal :
    (d : Disk) (id : ℕ) (buf : Option Block)
    → id < block_num
    → read_block d id buf ≡ some (d.blocks id)
unfolding read_block
read_block_legal d id buf h = ground arith

pub write_block_self :
    (d : Disk) (id k : ℕ) (buf : Block)
    → id < block_num
    → k < block_size
    → (write_block d id buf).blocks id k ≡ buf k
unfolding write_block
write_block_self d id k buf h hk = ground arith

pub write_block_other :
    (d : Disk) (id j : ℕ) (buf : Block) → ¬ (j ≡ id) → (write_block d id buf).blocks j ≡ d.blocks j
unfolding write_block
write_block_other d id j buf h = ground arith
