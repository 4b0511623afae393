-- ===== src/Inodes/Codec.antt =====
-- `struct inode` in its block: what is written is read back.
use naive_file_system.Prelude.{ℕ, suc, ◌+◌, ◌-◌, ◌*◌, ◌/◌, ◌%◌, ◌^◌, ◌<◌, ◌≡◌, arith, fun_ext}
use naive_file_system.Disk.{Block}
use naive_file_system.Inodes.{
  Inode, ndirect, get_u16, get_u32, byte_of, load_inode, inode_word, save_inode,
}

-- The values fit their fields.
pub record Fits (ino : Inode) : Type 0 where
  pub type : ino.type < 2 ^ 16
  pub size : ino.size < 2 ^ 32
  pub atime : ino.atime < 2 ^ 32
  pub mtime : ino.mtime < 2 ^ 32
  pub ctime : ino.ctime < 2 ^ 32
  pub blocks : (i : ℕ) → ino.blocks i < 2 ^ 32
  pub bound : (i : ℕ) → ndirect < i → ino.blocks i ≡ 0

get_u32-lt : (b : Block) (k : ℕ) → get_u32 b k < 2 ^ 32
unfolding get_u32
get_u32-lt b k = omega arith

pub load_inode-Fits : (b : Block) → Fits (load_inode b)
unfolding load_inode
load_inode-Fits b = record {
  type = omega arith;
  size = omega arith;
  atime = omega arith;
  mtime = omega arith;
  ctime = omega arith;
  blocks = λ i. ground (arith, get_u32-lt b (20 + 4 * i));
  bound = λ i h. ground arith;
}

-- The bytes of a word.
pub get_u32_bytes :
    (b : Block) (k v : ℕ)
    → b k ≡ byte_of v 0
    → b (k + 1) ≡ byte_of v 1
    → b (k + 2) ≡ byte_of v 2
    → b (k + 3) ≡ byte_of v 3
    → v < 2 ^ 32
    → get_u32 b k ≡ v
unfolding get_u32 byte_of
get_u32_bytes b k v h₀ h₁ h₂ h₃ lt = omega arith

save_inode_byte :
    (ino : Inode) (b : Block) (w i k : ℕ)
    → w < 105
    → i < 4
    → k ≡ 4 + 4 * w + i
    → save_inode ino b k ≡ byte_of (inode_word ino w) i
unfolding save_inode
save_inode_byte ino b w i k hw hi e =
    let word : (k - 4) / 4 ≡ w = omega arith in let place : k % 4 ≡ i = omega arith in ground arith

get_u32-save_inode :
    (ino : Inode) (b : Block) (w k : ℕ)
    → w < 105
    → k ≡ 4 + 4 * w
    → inode_word ino w < 2 ^ 32
    → get_u32 (save_inode ino b) k ≡ inode_word ino w
get_u32-save_inode ino b w k hw e lt =
    get_u32_bytes (save_inode ino b) k (inode_word ino w)
      (save_inode_byte ino b w 0 k hw (omega arith) (omega arith))
      (save_inode_byte ino b w 1 (k + 1) hw (omega arith) (omega arith))
      (save_inode_byte ino b w 2 (k + 2) hw (omega arith) (omega arith))
      (save_inode_byte ino b w 3 (k + 3) hw (omega arith) (omega arith)) lt

get_u16-save_inode :
    (ino : Inode) (b : Block) → ino.type < 2 ^ 16 → get_u16 (save_inode ino b) 0 ≡ ino.type
unfolding save_inode get_u16 byte_of
get_u16-save_inode ino b lt = omega arith

blocks-load_inode :
    (ino : Inode) (b : Block)
    → Fits ino
    → (i : ℕ) → (load_inode (save_inode ino b)).blocks i ≡ ino.blocks i
unfolding load_inode inode_word
blocks-load_inode ino b fits i = ground (
  arith,
  fits.blocks i,
  fits.bound i,
  λ (h : i < 101).
      get_u32-save_inode ino b (suc (suc (suc (suc i)))) (20 + 4 * i) (omega arith) (omega arith)
        (fits.blocks i),
)

-- An inode whose values fit its fields is read back from its block as it was written.
pub load_inode-save_inode :
    (ino : Inode) (b : Block) → Fits ino → load_inode (save_inode ino b) ≡ ino
unfolding load_inode inode_word
load_inode-save_inode ino b fits = λ i. record {
  type = get_u16-save_inode ino b fits.type i;
  size = get_u32-save_inode ino b 0 4 (omega arith) (omega arith) fits.size i;
  atime = get_u32-save_inode ino b 1 8 (omega arith) (omega arith) fits.atime i;
  mtime = get_u32-save_inode ino b 2 12 (omega arith) (omega arith) fits.mtime i;
  ctime = get_u32-save_inode ino b 3 16 (omega arith) (omega arith) fits.ctime i;
  blocks = fun_ext (blocks-load_inode ino b fits) i;
}
