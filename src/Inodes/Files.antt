-- ===== src/Inodes/Files.antt =====
-- `read_file`, `write_file`, `getattr` and `remove_file` of `class inode_manager` in
-- inode_manager.cc. They leave `next_inum` alone. Sizes are below 2 ^ 31, so that their arithmetic
-- does not wrap.
use naive_file_system.Prelude.{
  ℕ, zero, suc, ◌+◌, ◌-◌, ◌*◌, ◌^◌, false, Option, none, some, List, [], ◌++◌, ltb, ◌==◌,
  if◌then◌else◌, length, take, drop, replicate,
}
use naive_file_system.Outcome.{Outcome, ret, exits, undefined, ◌>>=◌}
use naive_file_system.Disk.{block_size}
use naive_file_system.Blocks.{BlockManager}
use naive_file_system.Inodes.{Inode, Times, maxfile, u32}
use naive_file_system.Inodes.Manager.{
  get_inode, put_inode, deref, free_inode, alloc_nth_block, free_nth_block, read_nth_block,
  write_nth_block, block_count,
}

-- The loop of `read_file`: what `rv` holds from its first byte on.
unfoldable pub read_blocks : ℕ → ℕ → BlockManager → Inode → List ℕ → Outcome (List ℕ)
read_blocks zero nth bm ino rv = ret rv
read_blocks (suc rounds) nth bm ino rv =
    read_nth_block bm ino nth >>= λ content. read_blocks rounds (nth + 1) bm ino (rv ++ content)

-- What `read_file` stores through its two pointers; an empty file leaves `*buf` alone.
pub record FileRead : Type 0 where
  pub buf : Option (List ℕ)
  pub size : ℕ

-- The end of `extent_server::get` in extent_server.cc: the string that is made of the two results.
abbrev pub fetched : FileRead → Outcome (List ℕ)
fetched r =
    if r.size == 0
    then ret []
    else elim r.buf [ none ↦ undefined | some cbuf ↦ ret (take r.size cbuf) ]

abbrev pub read_content : BlockManager → ℕ → Times → Inode → Outcome (FileRead × BlockManager)
read_content bm inum t ino = read_blocks (block_count ino.size) 0 bm ino [] >>= λ rv.
    ret (
      record { buf = some rv; size = ino.size },
      put_inode bm inum (record ino { atime = u32 t.a }),
    )

-- `read_file`.
unfoldable pub read_file : BlockManager → ℕ → Times → Outcome (FileRead × BlockManager)
read_file bm inum t = get_inode bm inum >>= deref >>= λ ino.
    if ino.size == 0
    then ret (record { buf = none; size = 0 }, bm)
    else if ltb (maxfile * block_size) ino.size
    then exits
    else read_content bm inum t ino

-- The loops of `write_file` and of `remove_file`.
unfoldable pub free_blocks : ℕ → ℕ → BlockManager → Inode → Outcome BlockManager
free_blocks zero start bm ino = ret bm
free_blocks (suc rounds) start bm ino =
    free_nth_block bm ino start >>= λ bm'. free_blocks rounds (start + 1) bm' ino

unfoldable pub alloc_blocks : ℕ → ℕ → BlockManager → Inode → Outcome (BlockManager × Inode)
alloc_blocks zero start bm ino = ret (bm, ino)
alloc_blocks (suc rounds) start bm ino = do
  (bm', ino') ← alloc_nth_block bm ino start [] false
  alloc_blocks rounds (start + 1) bm' ino'

-- The string `content` after `content.assign(buf + BLOCK_SIZE * start, n)`.
abbrev pub slice : List ℕ → ℕ → ℕ → List ℕ
slice buf start n = take n (drop (block_size * start) buf)

unfoldable pub write_blocks : ℕ → ℕ → BlockManager → Inode → List ℕ → Outcome BlockManager
write_blocks zero start bm ino buf = ret bm
write_blocks (suc rounds) start bm ino buf =
    write_nth_block bm ino start (slice buf start block_size) >>= λ bm'.
    write_blocks rounds (start + 1) bm' ino buf

-- `s.resize(n)`.
unfoldable pub resize : ℕ → List ℕ → List ℕ
resize n s = take n s ++ replicate (n - length s) 0

-- The first step of `write_file`: blocks are freed, or allocated, or neither.
unfoldable pub fit_blocks : ℕ → ℕ → BlockManager → Inode → Outcome (BlockManager × Inode)
unfolding free_blocks alloc_blocks
fit_blocks before after bm ino =
    if ltb after before
    then free_blocks (before - after) after bm ino >>= (λ bm'. ret (bm', ino))
    else if ltb before after
    then alloc_blocks (after - before) before bm ino
    else ret (bm, ino)

-- The second step: the whole blocks, and then the last one, filled up with zeros.
unfoldable pub write_content : ℕ → BlockManager → Inode → List ℕ → ℕ → Outcome BlockManager
unfolding write_blocks resize
write_content after bm ino buf size =
    let padding_bytes = after * block_size - size in
    let tail_bytes = block_size - padding_bytes in
    if after == 0
    then ret bm
    else write_blocks (after - 1) 0 bm ino buf >>= λ bm'.
        write_nth_block bm' ino (after - 1) (resize block_size (slice buf (after - 1) tail_bytes))

-- `write_file`.
unfoldable pub write_file : BlockManager → ℕ → List ℕ → ℕ → Times → Outcome BlockManager
unfolding fit_blocks write_content
write_file bm inum buf size t = do
  ino ← get_inode bm inum >>= deref
  let after = block_count size
  (bm₁, ino₁) ← fit_blocks (block_count ino.size) after bm ino
  bm₂ ← write_content after bm₁ ino₁ buf size
  ret (
      put_inode bm₂ inum
        (record ino₁ { size = u32 size; atime = u32 t.a; mtime = u32 t.m; ctime = u32 t.c }))

-- `struct attr` of extent_protocol.h.
pub record Attr : Type 0 where
  pub type : ℕ
  pub atime : ℕ
  pub mtime : ℕ
  pub ctime : ℕ
  pub size : ℕ

-- The cast of a `short` to `uint32_t` repeats its sign.
abbrev pub sign_extend : ℕ → ℕ
sign_extend v = if ltb v (2 ^ 15) then v else v + 2 ^ 32 - 2 ^ 16

abbrev pub fill_attr : Attr → Option Inode → Attr
fill_attr a none = a
fill_attr a (some ino) = record {
  type = sign_extend ino.type;
  atime = ino.atime;
  mtime = ino.mtime;
  ctime = ino.ctime;
  size = ino.size;
}

-- `inode_manager::getattr`: what `a` holds afterwards.
unfoldable pub getattr : BlockManager → ℕ → Attr → Outcome Attr
getattr bm inum a = get_inode bm inum >>= λ ino. ret (fill_attr a ino)

-- `remove_file`.
unfoldable pub remove_file : BlockManager → ℕ → Outcome BlockManager
remove_file bm inum = get_inode bm inum >>= deref >>= λ ino.
    free_blocks (block_count ino.size) 0 bm ino >>= λ bm'. free_inode bm' inum
